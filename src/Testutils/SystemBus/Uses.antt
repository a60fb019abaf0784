-- ===== src/Testutils/SystemBus/Uses.antt =====
-- The tests that use the shared bus, one after the other.
use ubuntu_installer_latest.Base.{
  ℕ, zero, suc, Text, ◌≡◌, ◌==◌, sym, arith, Option, none, some, List, [], ◌∷◌, if◌then◌else◌, Err,
  ok, Run, Empty, pure, ◌>>◌, Bool-cases, inl, inr,
}
use ubuntu_installer_latest.Testutils.Processes.{Os}
use ubuntu_installer_latest.Testutils.SystemBus.{
  SystemBus, word, start_local_system_bus, stop_local_system_bus,
}
use ubuntu_installer_latest.Testutils.SystemBus.Laws.{
  OsLaws, IsShared, chain-EndsShared, start-IsShared, stop-IsShared,
}

some_is : (n m : ℕ) → some m ≡ some n → m ≡ n
some_is n m h = cc

-- A test starts the bus, or calls the function that its start has returned.
pub data Use : Type 0 where
  starts stops : Use

-- The uses that run after `n` starts without their stops; a stop has a start before it, and fewer
-- than 2 ^ 64 starts are open.
unfoldable pub open_starts : ℕ → List Use → Option ℕ
open_starts n [] = some n
open_starts n (starts ∷ us) = if suc n == word then none else open_starts (suc n) us
open_starts zero (stops ∷ us) = none
open_starts (suc n) (stops ∷ us) = open_starts n us

module _ {W : Type 0} (os : Os W) where
  unfoldable pub run_uses : List Use → Run (SystemBus W) Err Empty
  run_uses [] = pure tt
  run_uses (starts ∷ us) = do start_local_system_bus os; run_uses us
  run_uses (stops ∷ us) = do stop_local_system_bus os; run_uses us

  module _ (laws : OsLaws os) (original : Text) where
    -- The tests that share the bus: over any uses of it in which each stop has a start before it and
    -- fewer than 2 ^ 64 starts are open at once, where no use ends the process, the 64-bit counter
    -- counts the open starts, the bus is started again exactly if none is open, and when none is the
    -- variable DBUS_SYSTEM_BUS_ADDRESS reads what it read before the first. Of the system it is
    -- assumed that what `os.Setenv` sets is read and that a new directory changes no variable.
    pub run_uses-IsShared :
        (us : List Use) (n m : ℕ) (s : SystemBus W)
        → open_starts n us ≡ some m
        → IsShared os original n s
        → (run_uses us s).0 ≡ ok tt
        → IsShared os original m (run_uses us s).1
    unfolding run_uses open_starts
    run_uses-IsShared [] n m s o v = λ h. rw (some_is n m (sym o)) v
    run_uses-IsShared (starts ∷ us) n m s o v = elim (Bool-cases (suc n == word)) [
      | inl e ↦ absurd (ground (arith, e, o))
      | inr e ↦
          chain-EndsShared os laws original (suc n) m _ (run_uses us)
            (start-IsShared os laws original n s v (ground (arith, e, v.fits)))
            λ t u. run_uses-IsShared us (suc n) m t (ground (arith, e, o)) u
    ]
    run_uses-IsShared (stops ∷ us) zero m s o v = absurd (cc)
    run_uses-IsShared (stops ∷ us) (suc n) m s o v =
        chain-EndsShared os laws original n m _ (run_uses us) (stop-IsShared os laws original n s v)
          λ t u. run_uses-IsShared us n m t o u

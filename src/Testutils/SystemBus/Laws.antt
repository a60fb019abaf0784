-- ===== src/Testutils/SystemBus/Laws.antt =====
-- What the tests that share the system bus find of it, and what they leave behind.
use ubuntu_installer_latest.Base.{
  ℕ, zero, suc, Text, codes, Bool, true, false, ◌≡◌, ◌<◌, ◌+◌, ◌-◌, ◌==◌, not, refl, ap, ◌∙◌, arith,
  if◌then◌else◌, Err, Result, ok, err, panic, Run, Empty, is_ok, continue,
}
use Prim.Native.Nat.{◌%◌}
use ubuntu_installer_latest.Testutils.Actions.{or_exit}
use ubuntu_installer_latest.Testutils.Processes.{Os, removed}
use ubuntu_installer_latest.Testutils.SystemBus.{
  SystemBus, system_address, word, stored, start_bus, do_once, start_local_system_bus, get_address,
  stop_bus, kill, stop_last, stop_local_system_bus,
}

-- Only `os.Setenv` changes the environment, and what it sets is read.
pub record OsLaws {W : Type 0} (os : Os W) : Type 0 where
  pub setenv_getenv :
      (k v : Text) (w : W) → is_ok (os.setenv k v w).0 ≡ true → os.getenv k (os.setenv k v w).1 ≡ v
  pub mkdir_keeps : (k a b : Text) (w : W) → os.getenv k (os.mkdir_temp a b w).1 ≡ os.getenv k w

abbrev pub not_zero : ℕ → Bool
not_zero zero = false
not_zero (suc n) = true

counted_up : (n r : ℕ) → r ≡ n → suc n < word → (r + 1) % word ≡ suc n
counted_up n r q l = omega arith

counted_down : (n r : ℕ) → r ≡ suc n → suc n < word → (r + (word - 1)) % word ≡ n
counted_down n r q l = omega arith

module _ {W : Type 0} (os : Os W) where
  -- `n` starts are open, and the variable was `original` before the first.
  pub record IsShared (original : Text) (n : ℕ) (s : SystemBus W) : Type 0 where
    pub fits : n < word
    pub counted : s.running ≡ n
    pub done_while_open : s.once_done ≡ not_zero n
    pub saved : not_zero n ≡ true → s.saved_address ≡ original
    pub restored : not_zero n ≡ false → os.getenv system_address s.world ≡ original

  module _ (laws : OsLaws os) (original : Text) where
    -- An operation that does not end the process leaves `n` starts open.
    abbrev pub EndsShared : ℕ → Result Err Empty × SystemBus W → Type 0
    EndsShared n x = x.0 ≡ ok tt → IsShared original n x.1

    if-EndsShared :
        (n : ℕ) (b : Bool) (x y : Result Err Empty × SystemBus W)
        → (b ≡ true → EndsShared n x)
        → (b ≡ false → EndsShared n y)
        → EndsShared n (if b then x else y)
    if-EndsShared n true x y f g = f refl
    if-EndsShared n false x y f g = g refl

    pub chain-EndsShared :
        (n m : ℕ) (x : Result Err Empty × SystemBus W) (k : Run (SystemBus W) Err Empty)
        → EndsShared n x
        → ((t : SystemBus W) → IsShared original n t → EndsShared m (k t))
        → EndsShared m (continue (λ _. k) x)
    chain-EndsShared n m (ok tt, t) k e f = f t (e refl)
    chain-EndsShared n m (err e, t) k g f = λ h. absurd (cc)
    chain-EndsShared n m (panic, t) k g f = λ h. absurd (cc)

    start_bus-saved :
        (s t : SystemBus W) (w : W)
        → (start_bus os s w).0 ≡ ok t
        → os.getenv system_address w ≡ original
        → (t.saved_address ≡ original) × (t.once_done ≡ true) × (t.running ≡ s.running)
    unfolding start_bus get_address or_exit removed
    start_bus-saved s t w h e =
        ground (arith, h, e, laws.mkdir_keeps system_address (codes "") (codes "tests-dbus") w)

    stop_bus-restored :
        (s t : SystemBus W) (w : W)
        → (stop_bus os s w).0 ≡ ok t
        → (os.getenv system_address (stop_bus os s w).1 ≡ s.saved_address)
          × (t ≡ record s { once_done = false })
    unfolding stop_bus or_exit kill
    stop_bus-restored s t w h =
        let killed = os.wait s.process (os.cancel s.process w) in
        let removed_at = (os.remove_all (os.directory s.config) killed).1 in
        ground (arith, h, laws.setenv_getenv system_address s.saved_address removed_at)

    opened-IsShared :
        (s : SystemBus W) (x : Result Err (SystemBus W) × W)
        → ((t : SystemBus W)
            → x.0 ≡ ok t
            → (t.saved_address ≡ original) × (t.once_done ≡ true) × (t.running ≡ 1))
        → (stored s x).0 ≡ ok tt
        → IsShared original 1 (stored s x).1
    unfolding stored
    opened-IsShared s (ok t, w) k h = record {
      fits = omega arith;
      counted = (k t refl).2;
      done_while_open = (k t refl).1;
      saved = λ q. (k t refl).0;
      restored = λ q. cc;
    }
    opened-IsShared s (err e, w) k h = absurd (cc)
    opened-IsShared s (panic, w) k h = absurd (cc)

    closed-IsShared :
        (s : SystemBus W) (x : Result Err (SystemBus W) × W)
        → ((t : SystemBus W)
            → x.0 ≡ ok t
            → (os.getenv system_address x.1 ≡ original) × (t ≡ record s { once_done = false }))
        → s.running ≡ 0
        → (stored s x).0 ≡ ok tt
        → IsShared original 0 (stored s x).1
    unfolding stored
    closed-IsShared s (ok t, w) k c h = record {
      fits = omega arith;
      counted = ap (λ u. u.running) (k t refl).1 ∙ c;
      done_while_open = ap (λ u. u.once_done) (k t refl).1;
      saved = λ q. cc;
      restored = λ q. (k t refl).0;
    }
    closed-IsShared s (err e, w) k c h = absurd (cc)
    closed-IsShared s (panic, w) k c h = absurd (cc)

    once-IsShared :
        (s : SystemBus W)
        → s.once_done ≡ false
        → s.running ≡ 1
        → os.getenv system_address s.world ≡ original
        → EndsShared 1 (do_once os s)
    unfolding do_once
    once-IsShared s q c e =
        if-EndsShared 1 s.once_done _ _ (λ t. absurd (cc))
          λ f. opened-IsShared s (start_bus os s s.world) (λ t m. (
            (start_bus-saved s t s.world m e).0,
            (start_bus-saved s t s.world m e).1,
            (start_bus-saved s t s.world m e).2 ∙ c,
          ))

    last-IsShared :
        (s : SystemBus W)
        → s.running ≡ 0
        → s.saved_address ≡ original
        → EndsShared 0 (stop_last os s)
    unfolding stop_last
    last-IsShared s c e =
        if-EndsShared 0 (not (s.running == 0)) _ _ (λ t. ground (arith, c, t))
          λ f.
            closed-IsShared s (stop_bus os s s.world)
              (λ t m.
                ((stop_bus-restored s t s.world m).0 ∙ e, (stop_bus-restored s t s.world m).1))
              c

    pub start-IsShared :
        (n : ℕ) (s : SystemBus W)
        → IsShared original n s
        → suc n < word
        → EndsShared (suc n) (start_local_system_bus os s)
    unfolding start_local_system_bus do_once
    start-IsShared zero s v l =
        once-IsShared _ v.done_while_open (counted_up 0 s.running v.counted l) (v.restored refl)
    start-IsShared (suc n) s v l =
        if-EndsShared (suc (suc n)) s.once_done _ _
          (λ t h. record {
            fits = l;
            counted = counted_up (suc n) s.running v.counted l;
            done_while_open = v.done_while_open;
            saved = v.saved;
            restored = λ q. cc;
          })
          λ f. absurd (ground (arith, f, v.done_while_open))

    pub stop-IsShared :
        (n : ℕ) (s : SystemBus W)
        → IsShared original (suc n) s
        → EndsShared n (stop_local_system_bus os s)
    unfolding stop_local_system_bus stop_last
    stop-IsShared zero s v =
        last-IsShared _ (counted_down 0 s.running v.counted v.fits) (v.saved refl)
    stop-IsShared (suc n) s v =
        let down = counted_down (suc n) s.running v.counted v.fits in
        let t = record s { running = (s.running + (word - 1)) % word } in
        if-EndsShared (suc n) (not (t.running == 0)) (ok tt, t) _
          (λ t h. record {
            fits = ground arith;
            counted = down;
            done_while_open = v.done_while_open;
            saved = v.saved;
            restored = λ q. cc;
          })
          λ f. absurd (ground (arith, f, down))

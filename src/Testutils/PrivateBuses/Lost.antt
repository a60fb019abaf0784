-- ===== src/Testutils/PrivateBuses/Lost.antt =====
-- The private buses that a clean-up does not end (gdm_mock.go).
use ubuntu_installer_latest.Base.{
  ℕ, zero, suc, Text, Bool, false, ◌==◌, ◌&&◌, ◌||◌, not, ◌≡◌, ◌≢◌, ◌+◌, refl, sym, ap, length,
  arith, List, [], ◌∷◌, ◌++◌, Err, Result, ok, err, panic, Run, Empty, Variant, catch, ◌>>◌,
}
use ubuntu_installer_latest.Testutils.Processes.{Os, Launched}
use ubuntu_installer_latest.Testutils.PrivateBuses.{
  PrivateBus, Buses, Dialer, start_private_dbus_server, setup_private_bus, kept, open_session,
  clean_up, cleanup_private_buses,
}
use ubuntu_installer_latest.Testutils.PrivateBuses.Daemons.{
  DaemonLaws, start-server-runs, start-server-fatal, setup_session-runs, clean_up-runs,
}

-- The process of one of the buses.
unfoldable pub is_kept : ℕ → List PrivateBus → Bool
is_kept q [] = false
is_kept q (b ∷ bs) = b.process == q || is_kept q bs

unfoldable pub is_in : ℕ → List ℕ → Bool
is_in q [] = false
is_in q (p ∷ ps) = p == q || is_in q ps

is_kept-append :
    (q : ℕ) (bs : List PrivateBus) (b : PrivateBus)
    → is_kept q (bs ++ (b ∷ [])) ≡ (is_kept q bs || b.process == q)
unfolding is_kept
is_kept-append q [] b = ground arith
is_kept-append q (a ∷ bs) b = ground (arith, is_kept-append q bs b)

module _ {W : Type 0} (os : Os W) (dialer : Dialer W) where
  -- So many calls of `OpenSession`, whatever each of them answers.
  unfoldable pub open_sessions : ℕ → Run (Buses W) Err Empty
  open_sessions zero s = (ok tt, s)
  open_sessions (suc n) s = (catch (open_session os dialer) >> open_sessions n) s

  -- The clean-up of the private buses that these calls have kept.
  abbrev pub cleaned_up : ℕ → Buses W → Result Err Empty × W
  cleaned_up n s =
      cleanup_private_buses os dialer (open_sessions n s).1.private_buses
        (open_sessions n s).1.world

  -- The server that a call has started if its bus cannot be set up.
  unfoldable pub started : Result Err (Text × Launched) → List ℕ
  started (ok x) = x.1.process ∷ []
  started _ = []

  unfoldable pub lost_by : Buses W → Result Err Variant → List ℕ
  lost_by s (err _) = started (start_private_dbus_server os dialer s.world).0
  lost_by s _ = []

  unfoldable pub lost : ℕ → Buses W → List ℕ → List ℕ
  lost zero s ls = ls
  lost (suc n) s ls =
      let opened = open_session os dialer s in lost n opened.1 (lost_by s opened.0 ++ ls)

  module _ (laws : DaemonLaws os dialer) where
    -- Of the process `q`: it runs exactly if its bus is kept or it is lost, and not both.
    abbrev Accounted : ℕ → List ℕ → Buses W → Type 0
    Accounted q ls s =
        (laws.runs q s.world ≡ (is_kept q s.private_buses || is_in q ls))
        × ((is_kept q s.private_buses && is_in q ls) ≡ false)

    open_session-Accounted :
        (q : ℕ) (ls : List ℕ) (s : Buses W)
        → Accounted q ls s
        → (open_session os dialer s).0 ≢ panic
        → let opened = open_session os dialer s in Accounted q (lost_by s opened.0 ++ ls) opened.1
    unfolding open_session setup_private_bus kept lost_by started is_in
    open_session-Accounted q ls s (a, b) h = go (start_private_dbus_server os dialer s.world).0 refl
      where
        go :
            (r : Result Err (Text × Launched))
            → (start_private_dbus_server os dialer s.world).0 ≡ r
            → let opened = open_session os dialer s in
              Accounted q (lost_by s opened.0 ++ ls) opened.1
        go (ok x) e =
            let (new, adds) = start-server-runs os dialer laws s.world x.0 x.1 e in
            let v = (start_private_dbus_server os dialer s.world).1 in
            let bus : PrivateBus = record {
              temp_dir = x.0;
              address = x.1.address;
              config = x.1.config;
              process = x.1.process;
            } in
            ground (
              arith,
              e,
              new,
              adds q,
              setup_session-runs os dialer laws x.1.address q v,
              is_kept-append q s.private_buses bus,
            )
        go (err x) e = absurd (start-server-fatal os dialer laws s.world x e)
        go panic e = absurd (h (ground (arith, e)))

    open_sessions-suc :
        (n : ℕ) (s : Buses W)
        → (open_sessions (suc n) s).0 ≡ ok tt
        → ((open_session os dialer s).0 ≢ panic)
          × (open_sessions (suc n) s ≡ open_sessions n (open_session os dialer s).1)
    unfolding open_sessions
    open_sessions-suc n s h = (λ e. ground (arith, h, e), ground (arith, h))

    open_sessions-Accounted :
        (n q : ℕ) (ls : List ℕ) (s : Buses W)
        → Accounted q ls s
        → (open_sessions n s).0 ≡ ok tt
        → Accounted q (lost n s ls) (open_sessions n s).1
    unfolding open_sessions lost
    open_sessions-Accounted zero q ls s v h = v
    open_sessions-Accounted (suc n) q ls s v h =
        let (runs_on, e) = open_sessions-suc n s h in
        let opened = open_session os dialer s in
        let rest =
          open_sessions-Accounted n q (lost_by s opened.0 ++ ls) opened.1
            (open_session-Accounted q ls s v runs_on) (rw (sym e) h) in
        rw e rest

    length-append_one :
        (bs : List PrivateBus) (b : PrivateBus) → length (bs ++ (b ∷ [])) ≡ suc (length bs)
    length-append_one [] b = refl
    length-append_one (a ∷ bs) b = ap suc (length-append_one bs b)

    open_session-length :
        (ls : List ℕ) (s : Buses W)
        → (open_session os dialer s).0 ≢ panic
        → let opened = open_session os dialer s in
          length opened.1.private_buses + length (lost_by s opened.0 ++ ls)
          ≡ suc (length s.private_buses + length ls)
    unfolding open_session setup_private_bus kept lost_by started
    open_session-length ls s h = go (start_private_dbus_server os dialer s.world).0 refl
      where
        go :
            (r : Result Err (Text × Launched))
            → (start_private_dbus_server os dialer s.world).0 ≡ r
            → let opened = open_session os dialer s in
              length opened.1.private_buses + length (lost_by s opened.0 ++ ls)
              ≡ suc (length s.private_buses + length ls)
        go (ok x) e =
            let bus : PrivateBus = record {
              temp_dir = x.0;
              address = x.1.address;
              config = x.1.config;
              process = x.1.process;
            } in
            ground (arith, h, e, length-append_one s.private_buses bus)
        go (err x) e = absurd (start-server-fatal os dialer laws s.world x e)
        go panic e = absurd (h (ground (arith, e)))

    open_sessions-length :
        (n : ℕ) (ls : List ℕ) (s : Buses W)
        → (open_sessions n s).0 ≡ ok tt
        → length (open_sessions n s).1.private_buses + length (lost n s ls)
          ≡ n + (length s.private_buses + length ls)
    unfolding open_sessions lost
    open_sessions-length zero ls s h = omega arith
    open_sessions-length (suc n) ls s h =
        let (runs_on, e) = open_sessions-suc n s h in
        let opened = open_session os dialer s in
        let rest = open_sessions-length n (lost_by s opened.0 ++ ls) opened.1 (rw (sym e) h) in
        ground (arith, e, rest, open_session-length ls s runs_on)

    cleanup-runs :
        (bs : List PrivateBus) (q : ℕ) (w : W)
        → (cleanup_private_buses os dialer bs w).0 ≡ ok tt
        → laws.runs q (cleanup_private_buses os dialer bs w).1
          ≡ (not (is_kept q bs) && laws.runs q w)
    unfolding cleanup_private_buses is_kept
    cleanup-runs [] q w h = refl
    cleanup-runs (b ∷ bs) q w h =
        ground (
          arith,
          h,
          clean_up-runs os dialer laws b q w,
          cleanup-runs bs q (clean_up os dialer b w).1,
        )

    -- Where no daemon runs and no private bus is kept, after `n` calls of `OpenSession`, whatever each of
    -- them answers, and a clean-up of the private buses, none of which ends the process: each call has
    -- kept its bus or has lost it, and the daemons that run are exactly those of the lost buses,
    -- those whose calls have failed. So the clean-up ends every daemon if no call has failed, and it
    -- ends none of those that failed calls have started. It is assumed that a piped command is new, and
    -- that it runs once it is started, until it is cancelled and waited for.
    pub cleanup-lost :
        (n q : ℕ) (s : Buses W)
        → ((p : ℕ) → laws.runs p s.world ≡ false)
        → s.private_buses ≡ []
        → (open_sessions n s).0 ≡ ok tt
        → (cleaned_up n s).0 ≡ ok tt
        → (length (open_sessions n s).1.private_buses + length (lost n s []) ≡ n)
          × (laws.runs q (cleaned_up n s).1 ≡ is_in q (lost n s []))
    unfolding is_kept is_in
    cleanup-lost n q s none_runs none_kept h c =
        let opened = (open_sessions n s).1 in
        ground (
          arith,
          open_sessions-length n [] s h,
          open_sessions-Accounted n q [] s (ground (arith, none_runs q, none_kept)) h,
          cleanup-runs opened.private_buses q opened.world c,
        )

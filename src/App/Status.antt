-- ===== src/App/Status.antt =====
-- The exit status of the program, and how `App.Run` has ended.
use ubuntu_installer_latest.Base.{ℕ, Bool, true, false, ◌≡◌, ◌≢◌, ◌⊎◌, inl, inr, arith}
use ubuntu_installer_latest.App.{
  Outcome, succeeded, failed, panicked, MainAt, starting, executing, returned, waiting, exited,
  State, start, usage_error, exit_code, is_running, Step, Reach, here, next, keyring_fails,
  keyring_starts, usage_fails, config_fails, help_prints, version_prints, serve_begins,
  manager_fails, manager_made, daemon_fails, daemon_made, announced, serving_fails, serving_stops,
  run_panics, handler_closed, exits, signalled, receives_terminate, receives_hangup, receives_close,
  quits_without_daemon, quits_daemon, stopped,
}
use ubuntu_installer_latest.App.Shutdown.{Reach-Inv}

-- The status that a program reports: 0 for a success, 1 for an error once the command line was
-- accepted, and 2 for an error before and for a panic.
abbrev pub Reports : Outcome → Bool → ℕ → Type 0
Reports o silent n =
    (o ≡ succeeded) × (n ≡ 0)
    ⊎ (o ≡ failed) × (silent ≡ true) × (n ≡ 1)
    ⊎ (o ≡ failed) × (silent ≡ false) × (n ≡ 2)
    ⊎ (o ≡ panicked) × (n ≡ 2)

-- `App.Run` has ended so.
abbrev EndsAs : Outcome → Bool → MainAt → Type 0
EndsAs o silent (returned r) = r ≡ o
EndsAs o silent (waiting n) = Reports o silent n
EndsAs o silent (exited n) = Reports o silent n
EndsAs o silent _ = ⊥

record Ended (o : Outcome) (silent : Bool) (s : State) : Type 0 where
  ends : EndsAs o silent s.main
  silence_is : s.silence_usage ≡ silent

exit_code-Reports :
    (o : Outcome) (s : State) → Reports o s.silence_usage (exit_code o (usage_error s))
unfolding exit_code usage_error
exit_code-Reports o s = ground arith

module _ (o : Outcome) (silent : Bool) (s : State) where
  Step-Ended : {t : State} → Step s t → Ended o silent s → Ended o silent t
  unfolding is_running
  Step-Ended (keyring_fails a) v = ground (arith, v.ends, v.silence_is)
  Step-Ended (keyring_starts a) v = ground (arith, v.ends, v.silence_is)
  Step-Ended (usage_fails a) v = ground (arith, v.ends, v.silence_is)
  Step-Ended (config_fails a) v = ground (arith, v.ends, v.silence_is)
  Step-Ended (help_prints a) v = ground (arith, v.ends, v.silence_is)
  Step-Ended (version_prints a) v = ground (arith, v.ends, v.silence_is)
  Step-Ended (serve_begins a) v = ground (arith, v.ends, v.silence_is)
  Step-Ended (manager_fails a) v = ground (arith, v.ends, v.silence_is)
  Step-Ended (manager_made a) v = ground (arith, v.ends, v.silence_is)
  Step-Ended (daemon_fails a) v = ground (arith, v.ends, v.silence_is)
  Step-Ended (daemon_made a) v = ground (arith, v.ends, v.silence_is)
  Step-Ended (announced a) v = ground (arith, v.ends, v.silence_is)
  Step-Ended (serving_fails a) v = ground (arith, v.ends, v.silence_is)
  Step-Ended (serving_stops a b) v = ground (arith, v.ends, v.silence_is)
  Step-Ended (run_panics a) v = ground (arith, v.ends, v.silence_is)
  Step-Ended (handler_closed a b) v = ground (arith, b, v.ends, v.silence_is, exit_code-Reports a s)
  Step-Ended (exits a b c) v = ground (arith, v.ends, v.silence_is)
  Step-Ended (signalled a b) v = ground (arith, v.ends, v.silence_is)
  Step-Ended (receives_terminate a b) v = ground (arith, v.ends, v.silence_is)
  Step-Ended (receives_hangup a b c) v = ground (arith, v.ends, v.silence_is)
  Step-Ended (receives_close a b c) v = ground (arith, v.ends, v.silence_is)
  Step-Ended (quits_without_daemon a b c) v = ground (arith, v.ends, v.silence_is)
  Step-Ended (quits_daemon a b c) v = ground (arith, v.ends, v.silence_is)
  Step-Ended (stopped a) v = ground (arith, v.ends, v.silence_is)

Reach-Ended :
    {o : Outcome} {silent : Bool} {s t : State} → Ended o silent s → Reach s t → Ended o silent t
Reach-Ended v here = v
Reach-Ended v (next {t = t} r st) = Step-Ended _ _ t st (Reach-Ended v r)

returned-Ended : (o : Outcome) (s : State) → s.main ≡ returned o → Ended o s.silence_usage s
returned-Ended o s m = ground (arith, m)

-- The program reports how `App.Run` has ended: if it exits after that, whatever its signal handler
-- does, then its status is 0 after a success, 1 after an error with usage errors silenced, and 2
-- after an error without that and after a panic. So no failure is reported as a success.
pub returned-Reports :
    {s t : State} (o : Outcome) (n : ℕ)
    → s.main ≡ returned o
    → Reach s t
    → t.main ≡ exited n
    → Reports o s.silence_usage n
returned-Reports {s} {t} o n m r x = ground (arith, Reach-Ended (returned-Ended o s m) r, x)

-- What a step of `run` makes of the start of the keyring daemon, but for its success.
module _ (s : State) where
  leaves_starting :
      {t : State}
      → Step s t
      → s.main ≡ starting
      → t.main ≢ starting
      → t.main ≢ executing
      → ((t.main ≡ returned failed) ⊎ (t.main ≡ returned panicked))
        × (t.silence_usage ≡ s.silence_usage)
  leaves_starting (keyring_fails a) m k l = ground (arith, a, m, k, l)
  leaves_starting (keyring_starts a) m k l = ground (arith, a, m, k, l)
  leaves_starting (usage_fails a) m k l = ground (arith, a, m, k, l)
  leaves_starting (config_fails a) m k l = ground (arith, a, m, k, l)
  leaves_starting (help_prints a) m k l = ground (arith, a, m, k, l)
  leaves_starting (version_prints a) m k l = ground (arith, a, m, k, l)
  leaves_starting (serve_begins a) m k l = ground (arith, a, m, k, l)
  leaves_starting (manager_fails a) m k l = ground (arith, a, m, k, l)
  leaves_starting (manager_made a) m k l = ground (arith, a, m, k, l)
  leaves_starting (daemon_fails a) m k l = ground (arith, a, m, k, l)
  leaves_starting (daemon_made a) m k l = ground (arith, a, m, k, l)
  leaves_starting (announced a) m k l = ground (arith, a, m, k, l)
  leaves_starting (serving_fails a) m k l = ground (arith, a, m, k, l)
  leaves_starting (serving_stops a b) m k l = ground (arith, a, m, k, l)
  leaves_starting (run_panics a) m k l = ground (arith, a, m, k, l)
  leaves_starting (handler_closed a b) m k l = ground (arith, a, m, k, l)
  leaves_starting (exits a b c) m k l = ground (arith, a, m, k, l)
  leaves_starting (signalled a b) m k l = ground (arith, a, m, k, l)
  leaves_starting (receives_terminate a b) m k l = ground (arith, a, m, k, l)
  leaves_starting (receives_hangup a b c) m k l = ground (arith, a, m, k, l)
  leaves_starting (receives_close a b c) m k l = ground (arith, a, m, k, l)
  leaves_starting (quits_without_daemon a b c) m k l = ground (arith, a, m, k, l)
  leaves_starting (quits_daemon a b c) m k l = ground (arith, a, m, k, l)
  leaves_starting (stopped a) m k l = ground (arith, a, m, k, l)

-- If the program, before `App.Run` has started the keyring daemon, takes a step to anything but
-- `Execute`, then `App.Run` has failed or panicked, and where the program exits after that, its
-- status is 2, that of a usage error.
pub keyring-exits_usage :
    {s t u : State} (n : ℕ)
    → Reach start s
    → s.main ≡ starting
    → Step s t
    → t.main ≢ starting
    → t.main ≢ executing
    → Reach t u
    → u.main ≡ exited n
    → ((t.main ≡ returned failed) ⊎ (t.main ≡ returned panicked)) × (n ≡ 2)
keyring-exits_usage {s} {t} {u} n reached m st k l r x =
    let (left, same) = leaves_starting s st m k l in
    let loud : t.silence_usage ≡ false = ground (arith, same, m, Reach-Inv reached) in
    (left, exits_two left loud)
  where
    exits_two :
        (t.main ≡ returned failed) ⊎ (t.main ≡ returned panicked) → t.silence_usage ≡ false → n ≡ 2
    exits_two (inl f) q = ground (arith, q, returned-Reports failed n f r x)
    exits_two (inr p) q = ground (arith, q, returned-Reports panicked n p r x)

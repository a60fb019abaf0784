-- ===== src/App/Program/Paths.antt =====
-- The ways of `run` through the steps, to an exit.
use ubuntu_installer_latest.Base.{ℕ, Bool, true, false, none, refl}
use ubuntu_installer_latest.App.{
  succeeded, failed, Outcome, State, start, terminate, finished, exited, Reach, here, next,
  keyring_fails, keyring_starts, usage_fails, config_fails, help_prints, version_prints,
  serve_begins, manager_fails, manager_made, daemon_made, announced, serving_fails, serving_stops,
  handler_closed, exits, signalled, receives_terminate, receives_close, quits_daemon, stopped,
  exit_code,
}
use ubuntu_installer_latest.App

abbrev pub ended : ℕ → Bool → Bool → Bool → Bool → State
ended n ready has_daemon stop silence = record {
  main = exited n;
  handler = finished;
  channel = none;
  channel_closed = true;
  ready = ready;
  has_daemon = has_daemon;
  stop_requested = stop;
  silence_usage = silence;
}

executing_reached : Reach start (record start { main = App.executing })
executing_reached = next here (keyring_starts refl)

managing_reached : Reach start (record start { main = App.managing; silence_usage = true })
managing_reached = next executing_reached (serve_begins refl)

serving_reached :
    Reach start
      (record start { main = App.serving; silence_usage = true; ready = true; has_daemon = true })
serving_reached =
    next (next (next managing_reached (manager_made refl)) (daemon_made refl)) (announced refl)

-- After `App.Run`: the channel is closed, the handler sees it, and `run` returns.
module _ (o : Outcome) (ready has_daemon silence : Bool) where
  abbrev run_over : State
  run_over = record start {
    main = App.returned o;
    ready = ready;
    has_daemon = has_daemon;
    silence_usage = silence;
  }

  exit_path :
      Reach start run_over
      → Reach start (ended (exit_code o (App.usage_error run_over)) ready has_daemon false silence)
  unfolding App.usage_error
  exit_path r =
      next (next (next r (handler_closed o refl)) (receives_close refl refl refl))
        (exits _ refl refl)

pub usage_path : Reach start (ended 2 false false false false)
unfolding exit_code App.usage_error
usage_path = exit_path failed false false false (next executing_reached (usage_fails refl))

pub help_path : Reach start (ended 0 false false false false)
unfolding exit_code App.usage_error
help_path = exit_path succeeded false false false (next executing_reached (help_prints refl))

pub config_path : Reach start (ended 1 false false false true)
unfolding exit_code App.usage_error
config_path = exit_path failed false false true (next executing_reached (config_fails refl))

pub version_path : Reach start (ended 0 false false false true)
unfolding exit_code App.usage_error
version_path = exit_path succeeded false false true (next executing_reached (version_prints refl))

pub unmade_path : Reach start (ended 1 true false false true)
unfolding exit_code App.usage_error
unmade_path = exit_path failed true false true (next managing_reached (manager_fails refl))

pub failed_path : Reach start (ended 1 true true false true)
unfolding exit_code App.usage_error
failed_path = exit_path failed true true true (next serving_reached (serving_fails refl))

-- The server stops once a signal has asked for it.
pub stopped_path : Reach start (ended 0 true true true true)
unfolding exit_code App.usage_error App.deliver
stopped_path =
    let asked =
      next (next (next serving_reached (signalled terminate refl)) (receives_terminate refl refl))
        (quits_daemon refl refl refl) in
    next
      (next (next (next asked (serving_stops refl refl)) (stopped refl))
        (handler_closed succeeded refl))
      (exits 0 refl refl)

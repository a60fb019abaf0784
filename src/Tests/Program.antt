-- ===== src/Tests/Program.antt =====
-- The program's steps, its manager, and the launch of a session, at concrete runs.
use ubuntu_installer_latest.Base.{ℕ, true, false, ◌⊎◌, ◌≢◌, ◌≡◌, refl}
use ubuntu_installer_latest.App.{
  failed, panicked, starting, keyring_fails, State, start, Reach, here, next, executing, waiting,
  exited, returned, finished, keyring_starts, serve_begins, manager_fails, handler_closed,
  exit_code, usage_error, receives_close, exits,
}
use ubuntu_installer_latest.App.Shutdown.{
  Inv, Reach-Inv, NeverExits, signalled-NeverExits, Exits, ready-Exits,
}
use ubuntu_installer_latest.App.Status.{Reports, returned-Reports, keyring-exits_usage}

abbrev configured : State
configured = record start { main = executing }

configured_reached : Reach start configured
configured_reached = next here (keyring_starts refl)

-- A manager that cannot be made, and the end of `App.Run`.
abbrev serving_failed : State
serving_failed = record configured { main = returned failed; silence_usage = true; ready = true }

abbrev closing : State
closing = record serving_failed { main = waiting 1; channel_closed = true }

closing_reached : Reach start closing
unfolding exit_code usage_error
closing_reached =
    next (next (next configured_reached (serve_begins refl)) (manager_fails refl))
      (handler_closed failed refl)

Reach-Inv_example : Inv closing
Reach-Inv_example = Reach-Inv closing_reached

ready-Exits_example : Exits 1 closing
ready-Exits_example = ready-Exits 1 closing closing_reached refl refl

signalled-NeverExits_example : (t : State) × Reach configured t × NeverExits t
signalled-NeverExits_example = signalled-NeverExits configured refl refl refl refl refl

-- The keyring daemon is not started, and the program exits.
abbrev no_keyring : State
no_keyring = record start { main = returned failed }

abbrev gone : State
gone = record no_keyring { main = exited 2; channel_closed = true; handler = finished }

gone_reached : Reach no_keyring gone
unfolding exit_code usage_error
gone_reached =
    next (next (next here (handler_closed failed refl)) (receives_close refl refl refl))
      (exits 2 refl refl)

abbrev two : ℕ
two = 2

returned-Reports_example : Reports failed false two
returned-Reports_example =
    returned-Reports {s = no_keyring} {t = gone} failed 2 refl gone_reached refl

not_starting : returned failed ≢ starting
not_starting h = cc

not_executing : returned failed ≢ executing
not_executing h = cc

keyring-exits_usage_example :
    ((no_keyring.main ≡ returned failed) ⊎ (no_keyring.main ≡ returned panicked)) × (two ≡ 2)
keyring-exits_usage_example =
    keyring-exits_usage {s = start} {t = no_keyring} {u = gone} 2 here refl (keyring_fails refl)
      not_starting not_executing gone_reached refl

-- ===== src/App/Serve.antt =====
-- `App.serve` of provd/cmd/provd/daemon/daemon.go, as it runs by itself: the manager, the gRPC daemon,
-- and the channel `ready`.
pub mod Ends
pub mod Laws
use ubuntu_installer_latest.Base.{
  Text, is_empty, Bool, true, false, Option, none, some, List, [], ◌∷◌, if◌then◌else◌, Err, Result,
  ok, err, panic, Run, Empty, ◌>>=◌, ◌>>◌,
}
use ubuntu_installer_latest.Manager
use ubuntu_installer_latest.Manager.{Surroundings, Manager, new_manager, stop}
use ubuntu_installer_latest.Daemon
use ubuntu_installer_latest.Daemon.{Host, Options, with_socket_path}

-- The fields of `App` that `serve` uses, and the system.
pub record AppState (W : Type 0) : Type 0 where
  pub world : W
  pub daemon : Option (Daemon.Daemon W)
  pub ready_closed : Bool

-- `close(a.ready)`, which panics if it is closed.
unfoldable pub close_ready : {W : Type 0} → Run (AppState W) Err Empty
close_ready s = if s.ready_closed then (panic, s) else (ok tt, record s { ready_closed = true })

abbrev pub with_world : {W A : Type 0} → AppState W → Result Err A × W → Result Err A × AppState W
with_world s (r, w) = (r, record s { world = w })

-- What the app does with the system.
abbrev pub on_world : {W A : Type 0} → Run W Err A → Run (AppState W) Err A
on_world m s = with_world s (m s.world)

unfoldable pub daemon_options : {W : Type 0} → Text → List (Options W → Options W)
daemon_options path = if is_empty path then [] else with_socket_path path ∷ []

-- `close(a.ready)`, and then `return err`.
unfoldable pub close_and_fail : {W : Type 0} → Err → Run (AppState W) Err Empty
close_and_fail e s = fail (close_ready s)
  where
    fail : {W : Type 0} → Result Err Empty × AppState W → Result Err Empty × AppState W
    fail (panic, t) = (panic, t)
    fail (_, t) = (err e, t)

module _ {W V : Type 0} (around : Surroundings W V) (host : Host W) where
  unfoldable pub on_daemon : Result Err (Daemon.Daemon W) → Run (AppState W) Err Empty
  on_daemon (ok d) s =
      (do close_ready; on_world (Daemon.serve host d)) (record s { daemon = some d })
  on_daemon (err e) s = close_and_fail e s
  on_daemon panic s = (panic, s)

  unfoldable pub after_stop :
      Result Err Empty → AppState W → Result Err Empty × W → Result Err Empty × AppState W
  after_stop r s (panic, w) = (panic, record s { world = w })
  after_stop r s (_, w) = (r, record s { world = w })

  -- The deferred `m.Stop()`, whose error is dropped; a panic of it is the end of `serve`.
  unfoldable pub stopped :
      Manager.Manager W → Result Err Empty × AppState W → Result Err Empty × AppState W
  stopped m (r, s) = after_stop r s (stop around m s.world)

  unfoldable pub with_manager : Text → Run (AppState W) Err Empty
  with_manager path s =
      let (d, t) = on_world (Daemon.new host (daemon_options path)) s in on_daemon d t

  unfoldable pub on_manager : Text → Result Err (Manager.Manager W) → Run (AppState W) Err Empty
  on_manager path (ok m) s = stopped m (with_manager path s)
  on_manager path (err e) s = close_and_fail e s
  on_manager path panic s = (panic, s)

  unfoldable pub serve : Text → Run (AppState W) Err Empty
  serve path s = let (m, t) = on_world (new_manager around) s in on_manager path m t

-- `Quit` after `WaitReady`.
unfoldable pub quit_daemon : {W : Type 0} → Host W → Option (Daemon.Daemon W) → W → W
quit_daemon host none w = w
quit_daemon host (some d) w = Daemon.quit host false w

-- `Quit`, where `none` says that it still waits in `WaitReady`.
unfoldable pub quit : {W : Type 0} → Host W → AppState W → Option (AppState W)
quit host s =
    if s.ready_closed then some (record s { world = quit_daemon host s.daemon s.world }) else none

-- ===== src/App/Serve/Laws.antt =====
-- What `App.serve` does to the channel that `App.Quit` waits for.
use ubuntu_installer_latest.Base.{
  none, Text, true, false, ◌≡◌, ◌≢◌, refl, sym, ◌∙◌, Empty, arith, Err, Result, ok, err, panic,
}
use ubuntu_installer_latest.Manager
use ubuntu_installer_latest.Manager.{Surroundings, Manager, new_manager, stop}
use ubuntu_installer_latest.Daemon
use ubuntu_installer_latest.Daemon.{Host}
use ubuntu_installer_latest.App.Serve.{
  AppState, close_ready, daemon_options, close_and_fail, on_daemon, after_stop, stopped,
  with_manager, on_manager, serve, quit,
}

module _ {W V : Type 0} (around : Surroundings W V) (host : Host W) where
  on_daemon_closed :
      (r : Result Err (Daemon.Daemon W)) (s : AppState W)
      → r ≢ panic
      → s.ready_closed ≡ false
      → (on_daemon around host r s).1.ready_closed ≡ true
  unfolding on_daemon close_ready close_and_fail
  on_daemon_closed (ok d) s n c = ground arith
  on_daemon_closed (err e) s n c = ground arith
  on_daemon_closed panic s n c = absurd (n refl)

  on_daemon_returns :
      (r : Result Err (Daemon.Daemon W)) (s : AppState W)
      → r ≢ panic
      → ((d : Daemon.Daemon W) → r ≡ ok d → (v : W) → (Daemon.serve host d v).0 ≢ panic)
      → s.ready_closed ≡ false
      → (on_daemon around host r s).0 ≢ panic
  unfolding on_daemon close_ready close_and_fail
  on_daemon_returns (ok d) s n k c = ground (arith, k d refl s.world)
  on_daemon_returns (err e) s n k c = ground arith
  on_daemon_returns panic s n k c = absurd (n refl)

  after_stop-keeps :
      (r : Result Err Empty) (s : AppState W) (x : Result Err Empty × W)
      → ((after_stop around host r s x).1.ready_closed ≡ s.ready_closed)
        × (x.0 ≢ panic → (after_stop around host r s x).0 ≡ r)
  unfolding after_stop
  after_stop-keeps r s (ok _, w) = (refl, λ n. refl)
  after_stop-keeps r s (err e, w) = (refl, λ n. refl)
  after_stop-keeps r s (panic, w) = (refl, λ n. absurd (n refl))

  on_manager_closed :
      (path : Text) (r : Result Err (Manager.Manager W)) (s : AppState W)
      → r ≢ panic
      → ((v : W) → (Daemon.new host (daemon_options path) v).0 ≢ panic)
      → s.ready_closed ≡ false
      → (on_manager around host path r s).1.ready_closed ≡ true
  unfolding on_manager with_manager stopped close_ready close_and_fail
  on_manager_closed path (ok m) s n k c =
      let end = with_manager around host path s in
      (after_stop-keeps end.0 end.1 (stop around m end.1.world)).0
      ∙ on_daemon_closed _ _ (k s.world) c
  on_manager_closed path (err e) s n k c = ground arith
  on_manager_closed path panic s n k c = absurd (n refl)

  on_manager_returns :
      (path : Text) (r : Result Err (Manager.Manager W)) (s : AppState W)
      → r ≢ panic
      → ((v : W) → (Daemon.new host (daemon_options path) v).0 ≢ panic)
      → ((u : W) (d : Daemon.Daemon W)
          → (Daemon.new host (daemon_options path) u).0 ≡ ok d
          → (v : W) → (Daemon.serve host d v).0 ≢ panic)
      → ((m : Manager.Manager W) (v : W) → (stop around m v).0 ≢ panic)
      → s.ready_closed ≡ false
      → (on_manager around host path r s).0 ≢ panic
  unfolding on_manager with_manager stopped close_ready close_and_fail
  on_manager_returns path (ok m) s n k d t c =
      let end = with_manager around host path s in
      λ h.
        on_daemon_returns _ _ (k s.world) (d s.world) c
          (sym ((after_stop-keeps end.0 end.1 (stop around m end.1.world)).1 (t m end.1.world)) ∙ h)
  on_manager_returns path (err e) s n k d t c = ground arith
  on_manager_returns path panic s n k d t c = absurd (n refl)

  quits : (s : AppState W) → s.ready_closed ≡ true → quit host s ≢ none
  unfolding quit
  quits s c h = ground (arith, c, h)

  waits : (s : AppState W) → s.ready_closed ≡ false → quit host s ≡ none
  unfolding quit
  waits s c = ground (arith, c)

  -- `serve` closes `ready` on every path, and only once: where the manager with its stop, the daemon and
  -- its serving do not panic and `ready` is open before, `Quit` waits before; and after, `ready` is
  -- closed, no second close has made `serve` panic, and `Quit` does not wait.
  pub serve-close_ready :
      (path : Text) (s : AppState W)
      → s.ready_closed ≡ false
      → (new_manager around s.world).0 ≢ panic
      → ((v : W) → (Daemon.new host (daemon_options path) v).0 ≢ panic)
      → ((u : W) (d : Daemon.Daemon W)
          → (Daemon.new host (daemon_options path) u).0 ≡ ok d
          → (v : W) → (Daemon.serve host d v).0 ≢ panic)
      → ((m : Manager.Manager W) (v : W) → (stop around m v).0 ≢ panic)
      → (quit host s ≡ none)
        × ((serve around host path s).1.ready_closed ≡ true)
        × ((serve around host path s).0 ≢ panic)
        × (quit host (serve around host path s).1 ≢ none)
  unfolding serve
  serve-close_ready path s c n k d t =
      let closed = on_manager_closed path _ _ n k c in
      (waits s c, closed, on_manager_returns path _ _ n k d t c, quits _ closed)

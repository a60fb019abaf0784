-- ===== src/App/Serve/Ends.antt =====
-- How `App.serve` ends, by what it leaves of the daemon and of `ready`.
use ubuntu_installer_latest.Base.{
  Text, Bool, true, false, Option, none, some, ◌≡◌, ◌≢◌, refl, Err, Result, ok, err, panic, Empty,
}
use ubuntu_installer_latest.Manager.{Surroundings, new_manager, stop}
use ubuntu_installer_latest.Manager
use ubuntu_installer_latest.Daemon
use ubuntu_installer_latest.Daemon.{Host}
use ubuntu_installer_latest.App.Serve.{
  AppState, serve, after_stop, daemon_options, on_manager, with_manager, on_daemon, close_ready,
  close_and_fail,
}
use ubuntu_installer_latest.App.Serve

abbrev pub is_set : {A : Type 0} → Option A → Bool
is_set none = false
is_set (some _) = true

-- How `serve` ends: the manager or the daemon was not made, or the daemon has served.
pub data Served {W : Type 0} (r : Result Err Empty) (a : AppState W) : Type 0 where
  unmade : (e : Err) → r ≡ err e → is_set a.daemon ≡ false → a.ready_closed ≡ true → Served r a
  failing : (e : Err) → r ≡ err e → is_set a.daemon ≡ true → a.ready_closed ≡ true → Served r a
  ending : r ≡ ok tt → is_set a.daemon ≡ true → a.ready_closed ≡ true → Served r a

moved-Served :
    {W : Type 0} {r : Result Err Empty} {a : AppState W} {w : W}
    → Served r a
    → Served r (record a { world = w })
moved-Served (unmade e q h c) = unmade e q h c
moved-Served (failing e q h c) = failing e q h c
moved-Served (ending q h c) = ending q h c

module _ {W V : Type 0} (around : Surroundings W V) (host : Host W) where
  -- Nothing that `serve` calls panics.
  pub record Serves : Type 0 where
    pub makes_manager : (w : W) → (new_manager around w).0 ≢ panic
    pub makes_daemon : (path : Text) (w : W) → (Daemon.new host (daemon_options path) w).0 ≢ panic
    pub serves :
        (path : Text) (u : W) (d : Daemon.Daemon W)
        → (Daemon.new host (daemon_options path) u).0 ≡ ok d
        → (w : W) → (Daemon.serve host d w).0 ≢ panic
    pub stops : (m : Manager.Manager W) (w : W) → (stop around m w).0 ≢ panic

  module _ (serves : Serves) where
    serving_Served :
        (d : Daemon.Daemon W) (a : AppState W) (r : Result Err Empty × W)
        → r.0 ≢ panic
        → a.ready_closed ≡ true
        → is_set a.daemon ≡ true
        → Served r.0 (record a { world = r.1 })
    serving_Served d a (ok tt, w) n c h = ending refl h c
    serving_Served d a (err e, w) n c h = failing e refl h c
    serving_Served d a (panic, w) n c h = absurd (n refl)

    on_daemon-Served :
        (r : Result Err (Daemon.Daemon W)) (a : AppState W)
        → r ≢ panic
        → ((d : Daemon.Daemon W) → r ≡ ok d → (w : W) → (Daemon.serve host d w).0 ≢ panic)
        → a.ready_closed ≡ false
        → is_set a.daemon ≡ false
        → Served (on_daemon around host r a).0 (on_daemon around host r a).1
    unfolding on_daemon close_ready close_and_fail
    on_daemon-Served (ok d) a n k c h = rw c (
        serving_Served d (record a { daemon = some d; ready_closed = true })
          (Daemon.serve host d a.world) (k d refl a.world) refl refl)
    on_daemon-Served (err e) a n k c h = rw c (unmade e refl h refl)
    on_daemon-Served panic a n k c h = absurd (n refl)

    stopped-Served :
        (r : Result Err Empty) (a : AppState W) (x : Result Err Empty × W)
        → x.0 ≢ panic
        → Served r a
        → Served (after_stop around host r a x).0 (after_stop around host r a x).1
    unfolding after_stop
    stopped-Served r a (ok _, w) n v = moved-Served v
    stopped-Served r a (err e, w) n v = moved-Served v
    stopped-Served r a (panic, w) n v = absurd (n refl)

    on_manager-Served :
        (path : Text) (r : Result Err (Manager.Manager W)) (a : AppState W)
        → r ≢ panic
        → a.ready_closed ≡ false
        → is_set a.daemon ≡ false
        → Served (on_manager around host path r a).0 (on_manager around host path r a).1
    unfolding on_manager with_manager Serve.stopped close_and_fail close_ready
    on_manager-Served path (ok m) a n c h =
        let end = with_manager around host path a in
        stopped-Served end.0 end.1 (stop around m end.1.world) (serves.stops m end.1.world)
          (on_daemon-Served _ _ (serves.makes_daemon path a.world) (serves.serves path a.world) c h)
    on_manager-Served path (err e) a n c h = rw c (unmade e refl h refl)
    on_manager-Served path panic a n c h = absurd (n refl)

    pub serve-Served :
        (path : Text) (a : AppState W)
        → a.ready_closed ≡ false
        → is_set a.daemon ≡ false
        → Served (serve around host path a).0 (serve around host path a).1
    unfolding serve
    serve-Served path a c h = on_manager-Served path _ _ (serves.makes_manager a.world) c h

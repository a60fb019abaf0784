-- ===== src/Daemon/Laws.antt =====
-- The socket of daemon.New: provd/internal/daemon/daemon.go.
use ubuntu_installer_latest.Base.{
  Text, is_empty, false, continue, List, [], ◌∷◌, Err, Result, ok, err, panic, Run, ◌≡◌, arith,
}
use ubuntu_installer_latest.Daemon.{
  Listener, Host, Daemon, Options, with_socket_path, apply_args, default_options, manual_socket,
  one_listener, activated_socket, select_socket, registered, build, new,
}

-- A host that is asked for its activation sockets by `f`.
unfoldable pub with_activation : {W : Type 0} → Run W Err (List Listener) → Host W → Host W
with_activation f host = record host { activation_listeners = f }

module _ {W : Type 0} (host : Host W) (path : Text) (h : is_empty path ≡ false) where
  new-with_socket_path :
      (f : Run W Err (List Listener)) (w : W)
      → new (with_activation f host) (with_socket_path path ∷ []) w
        ≡ new host (with_socket_path path ∷ []) w
  unfolding new build registered select_socket manual_socket apply_args with_socket_path
      with_activation
  new-with_socket_path f w = rw h

module _ {W : Type 0} (host : Host W) where
  one_listener_ok :
      (r : Result Err (List Listener) × W) (lis : Listener)
      → (continue (one_listener host) r).0 ≡ ok lis
      → r.0 ≡ ok (lis ∷ [])
  unfolding one_listener
  one_listener_ok (ok [], w) lis h = absurd (cc)
  one_listener_ok (ok (l ∷ []), w) lis h = ground arith
  one_listener_ok (ok (l ∷ m ∷ ls), w) lis h = absurd (cc)
  one_listener_ok (err e, w) lis h = absurd (cc)
  one_listener_ok (panic, w) lis h = absurd (cc)

  build_listener :
      (o : Options W) (w : W) (d : Daemon W)
      → (build host o w).0 ≡ ok d
      → (select_socket host o w).0 ≡ ok d.lis
  unfolding build registered
  build_listener o w d h = ground arith

  new-activated :
      (w : W) (d : Daemon W)
      → (new host [] w).0 ≡ ok d
      → (host.activation_listeners w).0 ≡ ok (d.lis ∷ [])
  unfolding new select_socket activated_socket apply_args is_empty
  new-activated w d h =
      one_listener_ok (host.activation_listeners w) d.lis
        (build_listener (default_options host) w d (ground arith))

  -- With a socket path that is not empty, the daemon is made in the same way whatever systemd
  -- activation would give: the path prevails over the activation sockets, which are not looked at.
  -- Without a socket path, a daemon is only made if systemd activation gives exactly one socket, and
  -- it listens on that socket.
  pub new_listens :
      (path : Text) (f : Run W Err (List Listener)) (d : Daemon W) (w : W)
      → (is_empty path ≡ false
          → new (with_activation f host) (with_socket_path path ∷ []) w
            ≡ new host (with_socket_path path ∷ []) w)
        × ((new host [] w).0 ≡ ok d → (host.activation_listeners w).0 ≡ ok (d.lis ∷ []))
  new_listens path f d w = (λ h. new-with_socket_path host path h f w, new-activated w d)

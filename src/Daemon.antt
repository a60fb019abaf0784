-- ===== src/Daemon.antt =====
-- The gRPC daemon: provd/internal/daemon/daemon.go. An error that names the address of the socket is
-- kept without that address.
pub mod Laws
use ubuntu_installer_latest.Base.{
  ℕ, Text, is_empty, ◌==◌, Bool, true, false, Option, none, some, String, List, [], ◌∷◌, length,
  if◌then◌else◌, Err, Result, ok, err, Run, Empty, on_err, on_number, message, map_err, pure, throw,
  lift, ◌>>=◌, ◌>>◌,
}

-- `net.Listener`, by its address.
pub record Listener : Type 0 where
  pub address : Text

-- What the daemon uses of the packages net and os, of go-systemd and of a gRPC server.
pub record Host (W : Type 0) : Type 0 where
  pub listen_unix : Text → Run W Err Listener
  pub chmod : Text → ℕ → Run W Err Empty
  pub stat : Text → Run W Err Empty
  pub activation_listeners : Run W Err (List Listener)
  pub sd_notify : Bool → String → Run W Err Bool
  pub register : W → W
  pub serve_grpc : Listener → Run W Err Empty
  pub stop_grpc : W → W
  pub graceful_stop_grpc : W → W

pub record Options (W : Type 0) : Type 0 where
  pub socket_path : Text
  pub systemd_activation_listener : Run W Err (List Listener)
  pub systemd_sd_notifier : Bool → String → Run W Err Bool

-- The gRPC server is that of the host.
pub record Daemon (W : Type 0) : Type 0 where
  pub lis : Listener
  pub systemd_sd_notifier : Bool → String → Run W Err Bool

unfoldable pub with_socket_path : {W : Type 0} → Text → Options W → Options W
with_socket_path p o = record o { socket_path = p }

unfoldable pub apply_args : {W : Type 0} → List (Options W → Options W) → Options W → Options W
apply_args [] o = o
apply_args (f ∷ fs) o = apply_args fs (f o)

module _ {W : Type 0} (host : Host W) where
  abbrev pub default_options : Options W
  default_options = record {
    socket_path = [];
    systemd_activation_listener = host.activation_listeners;
    systemd_sd_notifier = host.sd_notify;
  }

  -- A manual socket, which only its owner can use.
  unfoldable pub manual_socket : Text → Run W Err Listener
  manual_socket path = do
    lis ← host.listen_unix path
    map_err (on_err "could not change socket permission: %v") (host.chmod path 0o600)
    pure lis

  unfoldable pub one_listener : List Listener → Run W Err Listener
  one_listener (lis ∷ []) = pure lis
  one_listener listeners =
      throw
        (on_number "unexpected number of systemd socket activation (%d != 1)" (length listeners))

  unfoldable pub activated_socket : Options W → Run W Err Listener
  activated_socket o = do listeners ← o.systemd_activation_listener; one_listener listeners

  unfoldable pub select_socket : Options W → Run W Err Listener
  select_socket o w =
      if is_empty o.socket_path then activated_socket o w else manual_socket o.socket_path w

  unfoldable pub registered : Options W → Listener → Run W Err (Daemon W)
  registered o lis w =
      (ok (record { lis = lis; systemd_sd_notifier = o.systemd_sd_notifier }), host.register w)

  unfoldable pub build : Options W → Run W Err (Daemon W)
  build o = do
    lis ← select_socket o
    map_err (on_err "%s can’t be acccessed: %v") (host.stat lis.address)
    registered o lis

  unfoldable pub new : List (Options W → Options W) → Run W Err (Daemon W)
  new args = map_err (on_err "can't create daemon") (build (apply_args args default_options))

  unfoldable pub serve : Daemon W → Run W Err Empty
  serve d = map_err (on_err "error while serving") do
    map_err (on_err "couldn't send ready notification to systemd: %v")
        (d.systemd_sd_notifier false "READY=1")
    map_err (on_err "grpc error: %v") (host.serve_grpc d.lis)

  unfoldable pub quit : Bool → W → W
  quit force w = if force then host.stop_grpc w else host.graceful_stop_grpc w

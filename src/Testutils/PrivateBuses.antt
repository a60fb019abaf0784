-- ===== src/Testutils/PrivateBuses.antt =====
-- The private buses of the mocked GDM: gdmManagerBus, setupPrivateBus, startPrivateDbusServer and
-- CleanupPrivateBuses of gdm_mock.go.
pub mod Daemons
pub mod Lost
use ubuntu_installer_latest.Base.{
  ℕ, Text, codes, String, List, [], ◌∷◌, ◌++◌, Err, Result, ok, err, panic, Run, Empty, Variant,
  text, dbus_error, on_err, map_err, pure, ◌>>=◌, ◌>>◌,
}
use ubuntu_installer_latest.System.{member, dbus_gdm_prefix, dbus_peer_prefix}
use ubuntu_installer_latest.Gdm.{session_path, open_session as open_session_method}
use ubuntu_installer_latest.Testutils.Actions.{exiting}
use ubuntu_installer_latest.Testutils.Processes.{Os, Launched, launch_daemon}
use ubuntu_installer_latest.Testutils.Exports.{Conn, Entry, mock, export_each, acquire, export_mock}

-- `privateBus`; the address tells the connection apart, and the clean-up is that of the process.
pub record PrivateBus : Type 0 where
  pub temp_dir : Text
  pub address : Text
  pub config : Text
  pub process : ℕ

-- `dbus.Dial` and what the code calls of the connection that it gives.
pub record Dialer (W : Type 0) : Type 0 where
  pub dial : Text → Run W Err Empty
  pub auth : Text → Run W Err Empty
  pub hello : Text → Run W Err Empty
  pub conn : Text → Conn W
  pub close : Text → W → W

-- The variable `privateBuses`, and the system.
pub record Buses (W : Type 0) : Type 0 where
  pub world : W
  pub private_buses : List PrivateBus

abbrev pub user_verifier : String
user_verifier = member dbus_gdm_prefix ".UserVerifier"

abbrev pub greeter : String
greeter = member dbus_gdm_prefix ".Greeter"

abbrev session_entry : String → String → Entry
session_entry interface failure = record {
  value = mock "gdm session" [];
  path = session_path;
  interface = interface;
  failure = failure;
}

unfoldable pub session_entries : List Entry
session_entries =
    session_entry user_verifier "could not export UserVerifier mock: %w"
    ∷ session_entry greeter "could not export Greeter mock: %w"
    ∷ session_entry dbus_peer_prefix "could not export Peer mock: %w"
    ∷ []

abbrev pub not_acquired : String
not_acquired = "failed to acquire account name on local system bus: %w"

abbrev pub taken : String
taken = "failed to acquire account name on local system bus: name already taken"

unfoldable pub export_gdm_mock : {W : Type 0} → Conn W → Run W Err Empty
export_gdm_mock conn =
    export_mock conn
      (record {
        value = mock "gdm manager" [];
        path = codes "/org/gnome/DisplayManager/Manager";
        interface = member dbus_gdm_prefix ".Manager";
        failure = "could not export GDM Manager mock: %w";
      }
        ∷ [])
      dbus_gdm_prefix not_acquired taken

module _ {W : Type 0} (os : Os W) (dialer : Dialer W) where
  unfoldable pub start_private_dbus_server : Run W Err (Text × Launched)
  start_private_dbus_server = do
    dir ← exiting (os.mkdir_temp (codes "") (codes "tests-private-dbus"))
    bus ← launch_daemon os dir
    pure (dir, bus)

  unfoldable pub setup_session : Text → Run W Err Empty
  setup_session address = do
    map_err (on_err "failed to connect to session bus: %w") (dialer.dial address)
    map_err (on_err "failed to authenticate: %w") (dialer.auth address)
    map_err (on_err "failed to say hello: %w") (dialer.hello address)
    export_each (dialer.conn address) session_entries
    acquire (dialer.conn address) user_verifier not_acquired taken
    acquire (dialer.conn address) greeter not_acquired taken

  unfoldable pub setup_private_bus : Run W Err PrivateBus
  setup_private_bus = do
    started ← start_private_dbus_server
    setup_session started.1.address
    pure (record {
      temp_dir = started.0;
      address = started.1.address;
      config = started.1.config;
      process = started.1.process;
    })

  -- The bus that was set up is kept for the clean-up; one that was not is lost.
  unfoldable pub kept : Buses W → Result Err PrivateBus × W → Result Err Variant × Buses W
  kept s (ok bus, w) =
      (ok (text bus.address), record { world = w; private_buses = s.private_buses ++ (bus ∷ []) })
  kept s (err e, w) = (
    err (dbus_error (codes open_session_method) (text (codes "failed to open session") ∷ [])),
    record s { world = w },
  )
  kept s (panic, w) = (panic, record s { world = w })

  unfoldable pub open_session : Run (Buses W) Err Variant
  open_session s = kept s (setup_private_bus s.world)

  unfoldable pub close_bus : PrivateBus → Run W Err Empty
  close_bus bus w = (ok tt, dialer.close bus.address w)

  unfoldable pub kill : PrivateBus → Run W Err Empty
  kill bus w = (ok tt, os.wait bus.process (os.cancel bus.process w))

  -- `cleanup`, `Close` of the connection, and `RemoveAll`.
  unfoldable pub clean_up : PrivateBus → Run W Err Empty
  clean_up bus = do
    kill bus
    exiting (os.remove_all (os.directory bus.config))
    close_bus bus
    exiting (os.remove_all bus.temp_dir)

  unfoldable pub cleanup_private_buses : List PrivateBus → Run W Err Empty
  cleanup_private_buses [] w = (ok tt, w)
  cleanup_private_buses (bus ∷ buses) w = (clean_up bus >> cleanup_private_buses buses) w

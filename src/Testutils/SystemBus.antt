-- ===== src/Testutils/SystemBus.antt =====
-- The system bus that the tests share: systembus.go. The mutex makes each operation one step.
pub mod Laws
pub mod Uses
use ubuntu_installer_latest.Base.{
  on_err, map_err, ℕ, Text, codes, Bool, true, false, ◌||◌, ◌+◌, ◌-◌, ◌==◌, not, if◌then◌else◌, Err,
  Result, ok, err, panic, Run, Empty, message, pure, ◌>>=◌, ◌>>◌,
}
use Prim.Native.Nat.{◌%◌, ◌^◌}
use ubuntu_installer_latest.Base.Strings.{has_prefix}
use ubuntu_installer_latest.Testutils.Actions.{exiting}
use ubuntu_installer_latest.Testutils.Processes.{Os, launch_daemon, or_remove}

-- The variables of the package, and the system. `running` is an unsigned 64-bit number.
pub record SystemBus (W : Type 0) : Type 0 where
  pub world : W
  pub once_done : Bool
  pub running : ℕ
  pub process : ℕ
  pub config : Text
  pub saved_address : Text

abbrev pub system_address : Text
system_address = codes "DBUS_SYSTEM_BUS_ADDRESS"

abbrev pub word : ℕ
word = 2 ^ 64

-- The state, with what a call on the system returns.
unfoldable pub stored :
    {W : Type 0} → SystemBus W → Result Err (SystemBus W) × W → Result Err Empty × SystemBus W
stored s (ok t, w) = (ok tt, record t { world = w })
stored s (err e, w) = (err e, record s { world = w })
stored s (panic, w) = (panic, record s { world = w })

module _ {W : Type 0} (os : Os W) where
  unfoldable pub get_address : Run W Err Text
  get_address w = (ok (os.getenv system_address w), w)

  -- The function that `sdbus.Do` runs once.
  unfoldable pub start_bus : SystemBus W → Run W Err (SystemBus W)
  start_bus s = do
    dir ← exiting (os.mkdir_temp (codes "") (codes "tests-dbus"))
    saved ← get_address
    bus ← launch_daemon os dir
    or_remove os dir (os.setenv system_address bus.address)
    pure (record s {
      once_done = true;
      process = bus.process;
      config = bus.config;
      saved_address = saved;
    })

  unfoldable pub do_once : Run (SystemBus W) Err Empty
  do_once s = if s.once_done then (ok tt, s) else stored s (start_bus s s.world)

  unfoldable pub start_local_system_bus : Run (SystemBus W) Err Empty
  start_local_system_bus s = do_once (record s { running = (s.running + 1) % word })

  unfoldable pub kill : ℕ → Run W Err Empty
  kill process w = (ok tt, os.wait process (os.cancel process w))

  -- What the last of the returned functions does.
  unfoldable pub stop_bus : SystemBus W → Run W Err (SystemBus W)
  stop_bus s = do
    kill s.process
    exiting (os.remove_all (os.directory s.config))
    exiting (os.setenv system_address s.saved_address)
    pure (record s { once_done = false })

  unfoldable pub stop_last : Run (SystemBus W) Err Empty
  stop_last s = if not (s.running == 0) then (ok tt, s) else stored s (stop_bus s s.world)

  -- The function that `StartLocalSystemBus` returns.
  unfoldable pub stop_local_system_bus : Run (SystemBus W) Err Empty
  stop_local_system_bus s = stop_last (record s { running = (s.running + (word - 1)) % word })

  unfoldable pub is_running : W → Bool
  is_running w =
      has_prefix (os.getenv system_address w) (codes "unix:abstract=/tmp")
      || has_prefix (os.getenv system_address w) (codes "unix:path=/tmp")

  -- `connect` is `dbus.ConnectSystemBus`.
  unfoldable pub get_system_bus_connection : {A : Type 0} → Run W Err A → Run W Err A
  get_system_bus_connection connect w =
      if not (is_running w)
      then (
        err (
            message
              "system bus mock is not running. If that's intended, manually connect to the system bus instead of using this function"),
        w,
      )
      else connect w

-- `dbus.SystemBusPrivate` and what is called of its connection, and `t.Cleanup`, which runs at the end
-- of the test.
pub record PrivateConn (W : Type 0) : Type 0 where
  pub system_bus_private : Run W Err Empty
  pub auth : Run W Err Empty
  pub hello : Run W Err Empty
  pub close : Run W Err Empty
  pub cleanup : Run W Err Empty → W → W

module _ {W : Type 0} (conn : PrivateConn W) where
  unfoldable pub at_cleanup : Run W Err Empty → Run W Err Empty
  at_cleanup m w = (ok tt, conn.cleanup m w)

  -- A requirement that fails ends the test, with its message.
  unfoldable pub new_dbus_conn : Run W Err Empty
  new_dbus_conn = do
    map_err (on_err "Setup: can’t get a private system bus") conn.system_bus_private
    at_cleanup (map_err (on_err "Teardown: can’t close system dbus connection") conn.close)
    map_err (on_err "Setup: can’t auth on private system bus") conn.auth
    map_err (on_err "Setup: can’t send hello message on private system bus") conn.hello

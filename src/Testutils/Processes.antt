-- ===== src/Testutils/Processes.antt =====
-- The private dbus-daemon that systembus.go and gdm_mock.go start.
use ubuntu_installer_latest.Base.{
  ℕ, Text, codes, [], ◌∷◌, ◌++◌, Err, Result, ok, err, panic, Run, Empty, pure, ◌>>=◌, ◌>>◌,
}
use ubuntu_installer_latest.App.Program.{Command}
use ubuntu_installer_latest.Testutils.Actions.{exiting}

-- What the packages os, os/exec and path/filepath do. A command is known by a number once its
-- standard output is piped; `cancel` ends its context, and the error of `wait` is dropped.
pub record Os (W : Type 0) : Type 0 where
  pub mkdir_temp : Text → Text → Run W Err Text
  pub write_file : Text → Text → ℕ → Run W Err Empty
  pub stdout_pipe : Command → Run W Err ℕ
  pub start : ℕ → Run W Err Empty
  pub read_stdout : ℕ → ℕ → Run W Err Text
  pub cancel : ℕ → W → W
  pub wait : ℕ → W → W
  pub remove_all : Text → Run W Err Empty
  pub getenv : Text → W → Text
  pub setenv : Text → Text → Run W Err Empty
  pub join : Text → Text → Text
  pub directory : Text → Text

unfoldable pub bus_config : Text
bus_config =
    codes "<!DOCTYPE busconfig PUBLIC \"-//freedesktop//DTD D-Bus Bus Configuration 1.0//EN\"\n"
    ++ codes " \"http://www.freedesktop.org/standards/dbus/1.0/busconfig.dtd\">\n<busconfig>\n"
    ++ codes "  <type>system</type>\n  <keep_umask/>\n  <listen>unix:tmpdir=/tmp</listen>\n"
    ++ codes "  <standard_system_servicedirs />\n  <policy context=\"default\">\n"
    ++ codes
        "    <allow send_destination=\"*\" eavesdrop=\"true\"/>\n    <allow eavesdrop=\"true\"/>\n"
    ++ codes "    <allow own=\"*\"/>\n  </policy>\n</busconfig>"

-- A bus that runs: its configuration, its command, and the address that it has printed.
pub record Launched : Type 0 where
  pub config : Text
  pub process : ℕ
  pub address : Text

abbrev pub dbus_daemon : Text → Command
dbus_daemon config = record {
  name = codes "dbus-daemon";
  args = codes "--print-address=1" ∷ (codes "--config-file=" ++ config) ∷ [];
  stdin = [];
}

module _ {W : Type 0} (os : Os W) where
  -- `_ = os.RemoveAll(dir)` before `log.Fatalf`, which ends the process.
  unfoldable pub removed : {A : Type 0} → Text → Result Err A × W → Result Err A × W
  removed dir (ok a, w) = (ok a, w)
  removed dir (err e, w) = (panic, (os.remove_all dir w).1)
  removed dir (panic, w) = (panic, w)

  abbrev pub or_remove : {A : Type 0} → Text → Run W Err A → Run W Err A
  or_remove dir m w = removed dir (m w)

  unfoldable pub launch_daemon : Text → Run W Err Launched
  launch_daemon dir = do
    let config = os.join dir (codes "dbus.config")
    exiting (os.write_file config bus_config 0o600)
    process ← or_remove dir (os.stdout_pipe (dbus_daemon config))
    or_remove dir (os.start process)
    address ← or_remove dir (os.read_stdout process 256)
    pure (record { config = config; process = process; address = address })

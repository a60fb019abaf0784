-- ===== src/App/Program.antt =====
-- The program from its entry to its exit status, as `run` goes where no signal arrives:
-- provd/cmd/provd/main.go and the commands of provd/cmd/provd/daemon (daemon.go, keyring.go,
-- version.go).
pub mod Paths
pub mod Refines
pub mod Seen
use ubuntu_installer_latest.Base.{
  ℕ, Text, codes, String, Bool, true, false, Option, none, some, List, [], ◌∷◌, ◌++◌, Err, Result,
  ok, err, panic, Run, Empty, on_err, map_err, ◌>>=◌, ◌>>◌,
}
use ubuntu_installer_latest.System.{version}
use ubuntu_installer_latest.Config.{Viper, init_viper_config}
use ubuntu_installer_latest.Manager.{Surroundings}
use ubuntu_installer_latest.Daemon.{Host}
use ubuntu_installer_latest.App.{succeeded, failed, Outcome, exit_code}
use ubuntu_installer_latest.App.Serve.{AppState, serve}

-- `exec.Cmd`, before it is started.
pub record Command : Type 0 where
  pub name : Text
  pub args : List Text
  pub stdin : Text

-- The fields of `App`: those that `serve` uses, `rootCmd.SilenceUsage`, and the path of the socket
-- in `config`.
pub record Program (W : Type 0) : Type 0 where
  pub app : AppState W
  pub silence_usage : Bool
  pub socket : Text

-- A flag that is a string: `StringP` of pflag.
pub record Flag : Type 0 where
  pub name : Text
  pub shorthand : Text
  pub value : Text
  pub usage : Text

-- What the code sets of a `cobra.Command`: its texts, whether `Args` is `cobra.NoArgs`, and `RunE`.
pub record CobraCommand (W : Type 0) : Type 0 where
  pub use_line : Text
  pub short : Text
  pub long : Text
  pub no_args : Bool
  pub run_body : Run (Program W) Err Empty

-- The root command, `rootCmd`: `PersistentPreRunE`, `SilenceErrors`, its persistent flags and its
-- subcommands.
pub record CommandLine (W : Type 0) : Type 0 where
  pub root : CobraCommand W
  pub persistent_pre_run : Run (Program W) Err Empty
  pub silence_errors : Bool
  pub persistent_flags : List Flag
  pub commands : List (CobraCommand W)

-- `Execute` of cobra on the root command; `Start` of a command; `viper.Unmarshal`, as what becomes
-- of the path of the socket; and `fmt.Printf`.
pub record Shell (W : Type 0) : Type 0 where
  pub execute : CommandLine W → Run (Program W) Err Empty
  pub start : Command → Run W Err Empty
  pub unmarshal : Text → Run W Err Text
  pub print : Text → W → W

abbrev pub cmd_name : Text
cmd_name = codes "provd"

abbrev pub temp_keyring_password : Text
temp_keyring_password = codes "gis"

-- `getKeyringCmd`.
abbrev pub keyring_cmd : Command
keyring_cmd = record {
  name = codes "gnome-keyring-daemon";
  args = codes "--unlock" ∷ [];
  stdin = temp_keyring_password;
}

abbrev pub default_socket : Text
default_socket = codes "/run/gnome-initial-setup/desktop-provision/init.socket"

abbrev pub with_app :
    {W A : Type 0} → Program W → Result Err A × AppState W → Result Err A × Program W
with_app p (r, a) = (r, record p { app = a })

abbrev pub with_system : {W A : Type 0} → Program W → Result Err A × W → Result Err A × Program W
with_system p (r, w) = (r, record p { app = record p.app { world = w } })

-- What the program does with the system.
abbrev pub on_system : {W A : Type 0} → Run W Err A → Run (Program W) Err A
on_system m p = with_system p (m p.app.world)

-- `New`.
unfoldable pub new_app : {W : Type 0} → W → Program W
new_app w = record {
  app = record { world = w; daemon = none; ready_closed = false };
  silence_usage = false;
  socket = [];
}

-- `UsageError`.
unfoldable pub usage_error : {W : Type 0} → Program W → Bool
usage_error p = elim p.silence_usage [ true ↦ false | false ↦ true ]

-- The branches of `run` after `a.Run`.
unfoldable pub status_of : {W : Type 0} → Result Err Empty × Program W → Result Err ℕ × Program W
status_of (ok _, p) = (ok (exit_code succeeded (usage_error p)), p)
status_of (err _, p) = (ok (exit_code failed (usage_error p)), p)
status_of (panic, p) = (panic, p)

unfoldable pub store_socket : {W : Type 0} → Text → Run (Program W) Err Empty
store_socket path p = (ok tt, record p { socket = path })

module _ {W : Type 0} (viper : Viper W) (shell : Shell W) where
  -- The part of `PersistentPreRunE` that reads the configuration, over its defaults.
  unfoldable pub load_config : Run (Program W) Err Empty
  load_config = do
    on_system (init_viper_config viper cmd_name)
    path ← on_system (
        map_err (on_err "unable to decode configuration into struct: %w")
          (shell.unmarshal default_socket))
    store_socket path

  unfoldable pub pre_run : Run (Program W) Err Empty
  pre_run p = load_config (record p { silence_usage = true; socket = default_socket })

unfoldable pub get_version : {W : Type 0} → Shell W → Run (Program W) Err Empty
get_version shell p =
    let line = cmd_name ++ (b'\t' ∷ (version ++ codes "\n")) in
    (ok tt, record p { app = record p.app { world = shell.print line p.app.world } })

-- `installConfigFlag`.
unfoldable pub install_config_flag : {W : Type 0} → CommandLine W → CommandLine W
install_config_flag line = record line {
  persistent_flags =
      line.persistent_flags
      ++ (record {
        name = codes "config";
        shorthand = codes "c";
        value = [];
        usage = codes "use a specific configuration file";
      }
          ∷ []);
}

-- The subcommand of `installVersion`.
abbrev pub version_command : {W : Type 0} → Shell W → CobraCommand W
version_command shell = record {
  use_line = codes "version";
  short = codes "Returns version of daemon and exits";
  long = [];
  no_args = true;
  run_body = get_version shell;
}

unfoldable pub install_version : {W : Type 0} → Shell W → CommandLine W → CommandLine W
install_version shell line = record line {
  commands = line.commands ++ (version_command shell ∷ []);
}

module _ {W V : Type 0} (around : Surroundings W V) (host : Host W) where
  -- `RunE` of the root command.
  unfoldable pub run_root : Run (Program W) Err Empty
  run_root p = with_app p (serve around host p.socket p.app)

  module _ (viper : Viper W) (shell : Shell W) where
    -- The command that `New` makes.
    unfoldable pub root_command : CommandLine W
    root_command = record {
      root = record {
        use_line = cmd_name ++ codes " COMMAND";
        short = codes "Provisioning daemon";
        long = codes "Ubuntu Desktop Provisioning daemon.";
        no_args = true;
        run_body = run_root;
      };
      persistent_pre_run = pre_run viper shell;
      silence_errors = true;
      persistent_flags = [];
      commands = [];
    }

    -- The commands as `New` leaves them.
    unfoldable pub command_line : CommandLine W
    command_line = install_version shell (install_config_flag root_command)

    -- `App.Run`.
    unfoldable pub run_app : Run (Program W) Err Empty
    run_app = do on_system (shell.start keyring_cmd); shell.execute command_line

    unfoldable pub run : Run (Program W) Err ℕ
    run p = status_of (run_app p)

    -- `main`, with the status that it gives to `os.Exit`.
    unfoldable pub main : W → Result Err ℕ × Program W
    main w = run (new_app w)

-- ===== src/Tests/Runs.antt =====
-- The program without a signal, at a concrete run.
use ubuntu_installer_latest.Base.{
  Text, is_empty, true, panic, ok, err, message, [], ◌∷◌, ◌≡◌, ◌≢◌, refl, ◌>>◌, arith,
}
use mathlib.Core.List.{Memᴰ}
use ubuntu_installer_latest.Config.{
  Viper, bind_all, bind_environment, on_read, select_file, search_paths, add_binary, load,
  init_viper_config,
}
use ubuntu_installer_latest.Daemon
use ubuntu_installer_latest.Daemon.{
  build, registered, select_socket, activated_socket, one_listener, manual_socket, apply_args,
  with_socket_path,
}
use ubuntu_installer_latest.App.Serve.{daemon_options}
use ubuntu_installer_latest.App.Program.{Shell, main}
use ubuntu_installer_latest.App.Program.Seen.{Refines}
use ubuntu_installer_latest.App.Program.Refines.{Runs, runs_command, main-Refines}
use ubuntu_installer_latest.Tests.Managers.{Nothing, around, host, made_returns, stop_returns}

abbrev unset : Viper Nothing
unset = record {
  config_flag = λ w. (ok [], w);
  executable = λ w. (err (message "no path"), w);
  directory = λ path. path;
  environ = λ w. [];
  set_config_file = λ path w. w;
  set_config_name = λ name w. w;
  add_config_path = λ path w. w;
  read_in_config = λ w. (err (message "not found"), w);
  is_not_found = λ e. true;
  set_env_prefix = λ prefix w. w;
  automatic_env = λ w. w;
  bind_env = λ k n w. (ok tt, w);
}

-- The command line is that of the daemon.
abbrev shell : Shell Nothing
shell = record {
  execute = λ line. line.persistent_pre_run >> line.root.run_body;
  start = λ c w. (ok tt, w);
  unmarshal = λ path w. (ok path, w);
  print = λ line w. w;
}

daemon_made : (path : Text) (w : Nothing) → (Daemon.new host (daemon_options path) w).0 ≢ panic
unfolding Daemon.new build registered select_socket activated_socket one_listener manual_socket
    apply_args with_socket_path is_empty daemon_options
daemon_made [] w h = cc
daemon_made (c ∷ path) w h = cc

daemon_serves :
    (path : Text) (u : Nothing) (d : Daemon.Daemon Nothing)
    → (Daemon.new host (daemon_options path) u).0 ≡ ok d
    → (w : Nothing) → (Daemon.serve host d w).0 ≢ panic
unfolding Daemon.new build registered select_socket activated_socket one_listener manual_socket
    apply_args with_socket_path is_empty daemon_options Daemon.serve
daemon_serves [] u d e w h = cc
daemon_serves (c ∷ path) u d e w h = ground (arith, e, h)

shell_runs : Runs around host unset shell
unfolding init_viper_config load bind_environment bind_all on_read select_file search_paths
    add_binary is_empty
shell_runs = record {
  serves = record {
    makes_manager = λ w. made_returns;
    makes_daemon = daemon_made;
    serves = daemon_serves;
    stops = stop_returns;
  };
  starts = λ c w h. cc;
  configures = λ name w h. cc;
  decodes = λ path w h. cc;
  executes = λ line p. runs_command line.root (Memᴰ.head refl) p.app.world refl;
}

main-Refines_example : Refines (main around host unset shell tt)
main-Refines_example = main-Refines around host unset shell shell_runs tt

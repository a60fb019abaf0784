-- ===== src/App/Program/Refines.antt =====
-- The program that runs without a signal, against the steps of its two goroutines.
use ubuntu_installer_latest.Base.{
  Text, Bool, true, false, ◌≡◌, ◌≢◌, refl, Err, Result, ok, err, panic, Run, Empty, ◌∷◌, ◌>>◌,
  map_err, continue,
}
use mathlib.Core.List.{Memᴰ}
use ubuntu_installer_latest.Config.{Viper, init_viper_config}
use ubuntu_installer_latest.Manager.{Surroundings}
use ubuntu_installer_latest.Daemon.{Host}
use ubuntu_installer_latest.App.Program.{
  Command, Program, Shell, cmd_name, keyring_cmd, default_socket, new_app, status_of, store_socket,
  load_config, pre_run, run_root, get_version, run_app, run, main, command_line, root_command,
  install_version, install_config_flag, CobraCommand, CommandLine, with_system, on_system,
}
use ubuntu_installer_latest.App.Serve.Ends.{Serves, serve-Served}
use ubuntu_installer_latest.App.Program.Seen.{Refines, IsFresh, fresh-Refines, Served-Refines}

-- How `Execute` ends, as cobra documents it: the command line is refused, or a help is printed, with
-- no body run; or the persistent hook and then the body of one of the commands are run, where cobra
-- adds commands of its own, such as completion.
pub data Executed {W : Type 0} (shell : Shell W) (line : CommandLine W) (p : Program W)
    : Type 0 where
  refuses :
      (e : Err) (w : W) → shell.execute line p ≡ with_system p (err e, w) → Executed shell line p
  helps : (w : W) → shell.execute line p ≡ with_system p (ok tt, w) → Executed shell line p
  runs_command :
      (c : CobraCommand W)
      → Memᴰ c (line.root ∷ line.commands)
      → (w : W)
      → shell.execute line p
        ≡ (line.persistent_pre_run >> c.run_body) (with_system {A = Empty} p (ok tt, w)).1
      → Executed shell line p
  runs_other :
      (m : Run W Err Empty)
      → ((v : W) → (m v).0 ≢ panic)
      → (w : W)
      → shell.execute line p
        ≡ (line.persistent_pre_run >> on_system m) (with_system {A = Empty} p (ok tt, w)).1
      → Executed shell line p

moved-IsFresh :
    {W : Type 0} {silent : Bool} {p : Program W} {w : W} {path : Text}
    → IsFresh silent p
    → IsFresh silent (record p { app = record p.app { world = w }; socket = path })
moved-IsFresh f = record {
  silent_is = f.silent_is;
  not_ready = f.not_ready;
  no_daemon = f.no_daemon;
}

-- The hook, before the body of a command.
module _ {W : Type 0} (k : Run (Program W) Err Empty)
    (goes_on : (q : Program W) → IsFresh true q → Refines (status_of (k q))) where
  after_decoding :
      (g : Err → Err) (r : Result Err Text × W) (p : Program W)
      → r.0 ≢ panic
      → IsFresh true p
      → Refines (
          status_of (
            continue
              (λ _. k)
              (continue store_socket (with_system p (map_err g (λ _. r) p.app.world)))))
  unfolding store_socket
  after_decoding g (ok path, w) p n f = goes_on _ (moved-IsFresh f)
  after_decoding g (err e, w) p n f = fresh-Refines true (err (g e)) _ (λ q. cc) (moved-IsFresh f)
  after_decoding g (panic, w) p n f = absurd (n refl)

  after_configuring :
      (m : Run (Program W) Err Empty)
      → ((q : Program W) → IsFresh true q → Refines (status_of (continue (λ _. k) (m q))))
      → (r : Result Err Empty × W) (p : Program W) → r.0 ≢ panic
      → IsFresh true p
      → Refines (status_of (continue (λ _. k) (continue (λ _. m) (with_system p r))))
  after_configuring m h (ok tt, w) p n f = h _ (moved-IsFresh f)
  after_configuring m h (err e, w) p n f = fresh-Refines true (err e) _ (λ q. cc) (moved-IsFresh f)
  after_configuring m h (panic, w) p n f = absurd (n refl)

module _ {W V : Type 0} (around : Surroundings W V) (host : Host W) (viper : Viper W)
    (shell : Shell W) where
  -- Nothing that the program calls panics, and cobra does what it documents.
  pub record Runs : Type 0 where
    pub serves : Serves around host
    pub starts : (c : Command) (w : W) → (shell.start c w).0 ≢ panic
    pub configures : (name : Text) (w : W) → (init_viper_config viper name w).0 ≢ panic
    pub decodes : (path : Text) (w : W) → (shell.unmarshal path w).0 ≢ panic
    pub executes : (line : CommandLine W) (p : Program W) → Executed shell line p

  module _ (runs : Runs) where
    after_hook :
        (k : Run (Program W) Err Empty)
        → ((q : Program W) → IsFresh true q → Refines (status_of (k q)))
        → (p : Program W) → IsFresh false p
        → Refines (status_of ((pre_run viper shell >> k) p))
    unfolding pre_run load_config
    after_hook k h p f =
        after_configuring k h _
          (λ q v.
            after_decoding k h _ (shell.unmarshal default_socket q.app.world) q
              (runs.decodes default_socket q.app.world) v)
          (init_viper_config viper cmd_name p.app.world)
          (record p { silence_usage = true; socket = default_socket })
          (runs.configures cmd_name p.app.world)
          (record { silent_is = refl; not_ready = f.not_ready; no_daemon = f.no_daemon })

    root_Refines : (p : Program W) → IsFresh true p → Refines (status_of (run_root around host p))
    unfolding run_root
    root_Refines p f =
        Served-Refines _ _ f.silent_is
          (serve-Served around host runs.serves p.socket p.app f.not_ready f.no_daemon)

    version_Refines : (p : Program W) → IsFresh true p → Refines (status_of (get_version shell p))
    unfolding get_version
    version_Refines p f = fresh-Refines true (ok tt) _ (λ q. cc) (moved-IsFresh f)

    other_Refines :
        (m : Run W Err Empty)
        → ((v : W) → (m v).0 ≢ panic)
        → (p : Program W) → IsFresh true p
        → Refines (status_of (on_system m p))
    other_Refines m n p f = fresh-Refines true _ _ (n p.app.world) (moved-IsFresh f)

    -- The bodies of the commands that `New` installs.
    command_Refines :
        (c : CobraCommand W)
        → Memᴰ c (
            (command_line around host viper shell).root
            ∷ (command_line around host viper shell).commands)
        → (p : Program W) → IsFresh true p
        → Refines (status_of (c.run_body p))
    unfolding command_line install_version install_config_flag root_command
    command_Refines c (Memᴰ.head e) p f = rw e (root_Refines p f)
    command_Refines c (Memᴰ.tail (Memᴰ.head e)) p f = rw e (version_Refines p f)
    command_Refines c (Memᴰ.tail (Memᴰ.tail m)) p f = elim m [ ]

    Executed-Refines :
        (p : Program W)
        → IsFresh false p
        → Executed shell (command_line around host viper shell) p
        → Refines (status_of (shell.execute (command_line around host viper shell) p))
    unfolding command_line install_version install_config_flag root_command
    Executed-Refines p f (refuses e w q) =
        rw q (fresh-Refines false (err e) _ (λ q. cc) (moved-IsFresh f))
    Executed-Refines p f (helps w q) =
        rw q (fresh-Refines false (ok tt) _ (λ q. cc) (moved-IsFresh f))
    Executed-Refines p f (runs_command c m w q) =
        rw q (after_hook c.run_body (command_Refines c m) _ (moved-IsFresh f))
    Executed-Refines p f (runs_other m n w q) =
        rw q (after_hook _ (other_Refines m n) _ (moved-IsFresh f))

    after_keyring :
        (r : Result Err Empty × W) (p : Program W)
        → r.0 ≢ panic
        → IsFresh false p
        → Refines (
            status_of (
              continue
                (λ _. shell.execute (command_line around host viper shell))
                (with_system p r)))
    after_keyring (ok tt, w) p n f = Executed-Refines _ (moved-IsFresh f) (runs.executes _ _)
    after_keyring (err e, w) p n f = fresh-Refines false (err e) _ (λ q. cc) (moved-IsFresh f)
    after_keyring (panic, w) p n f = absurd (n refl)

    run-Refines : (w : W) → Refines (run around host viper shell (new_app w))
    unfolding run run_app new_app
    run-Refines w =
        after_keyring (shell.start keyring_cmd w) (new_app w) (runs.starts keyring_cmd w)
          (record { silent_is = refl; not_ready = refl; no_daemon = refl })

    -- The program refines its steps: where nothing that it calls panics and cobra runs the hook and
    -- then one of the commands that are installed, or what else it documents, `main` ends with an
    -- exit status, and the two goroutines can get from their start to having exited with that status,
    -- with `ready`, the daemon and the silencing of usage errors as `main` leaves them.
    pub main-Refines : (w : W) → Refines (main around host viper shell w)
    unfolding main
    main-Refines w = run-Refines w

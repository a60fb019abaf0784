-- ===== src/Tests/Buses.antt =====
-- The private buses of the mocked GDM, and the descriptions of the mocks, at concrete systems.
use ubuntu_installer_latest.Base.{
  ℕ, text_eq, ltb, ◌==◌, ◌&&◌, ◌||◌, not, Bool, false, if◌then◌else◌, ◌≡◌, ◌+◌, refl, [], ◌∷◌,
  length, ok, err, message, arith,
}
use ubuntu_installer_latest.App.Program.{Command}
use ubuntu_installer_latest.Testutils.Processes.{Os, launch_daemon, removed, bus_config}
use ubuntu_installer_latest.Testutils.Exports.{primary_owner, export_each, acquire, owner_only}
use ubuntu_installer_latest.Testutils.PrivateBuses.{
  Buses, Dialer, open_session, kept, setup_private_bus, start_private_dbus_server, setup_session,
  session_entries, cleanup_private_buses, clean_up, close_bus, kill,
}
use ubuntu_installer_latest.Testutils.Actions.{or_exit}
use ubuntu_installer_latest.Testutils.PrivateBuses.Daemons.{DaemonLaws}
use ubuntu_installer_latest.Testutils.PrivateBuses.Lost.{
  open_sessions, cleaned_up, lost, is_in, cleanup-lost,
}
use ubuntu_installer_latest.Base.{text, is_ok, true, ◌⊎◌}
use ubuntu_installer_latest.System.{Bus}
use ubuntu_installer_latest.Gdm
use ubuntu_installer_latest.Gdm.{PrivateBus}
use ubuntu_installer_latest.Gdm.Launch.{close}
use ubuntu_installer_latest.Gdm.Connection.{
  ConnectionLaws, made_service, dial_session, new-close-open,
}

-- The number of the next command, and which of the commands below it run.
record Commands : Type 0 where
  next : ℕ
  alive : ℕ → Bool

abbrev is_running : ℕ → Commands → Bool
is_running q w = w.alive q && ltb q w.next

abbrev commands : Os Commands
commands = record {
  mkdir_temp = λ dir pattern w. (ok pattern, w);
  write_file = λ path t mode w. (ok tt, w);
  stdout_pipe = λ c w. (ok w.next, w);
  start = λ p w. (
    ok tt,
    record { next = if ltb p w.next then w.next else p + 1; alive = λ q. p == q || is_running q w },
  );
  read_stdout = λ p n w. (ok (p ∷ []), w);
  cancel = λ p w. w;
  wait = λ p w. record w { alive = λ q. not (p == q) && w.alive q };
  remove_all = λ path w. (ok tt, w);
  getenv = λ k w. [];
  setenv = λ k v w. (ok tt, w);
  join = λ a b. a;
  directory = λ a. a;
}

-- The bus of the second command cannot be dialled.
abbrev second_refused : Dialer Commands
second_refused = record {
  dial = λ a w. (if text_eq a (1 ∷ []) then err (message "refused") else ok tt, w);
  auth = λ a w. (ok tt, w);
  hello = λ a w. (ok tt, w);
  conn = λ a. record {
    export = λ v p i w. (ok tt, w);
    request_name = λ name w. (ok primary_owner, w);
  };
  close = λ a w. w;
}

piped_is_new :
    (c : Command) (p : ℕ) (w : Commands)
    → (commands.stdout_pipe c w).0 ≡ ok p
    → is_running p w ≡ false
piped_is_new c p w e = ground (arith, e)

started_runs :
    (p q : ℕ) (w : Commands) → is_running q (commands.start p w).1 ≡ (p == q || is_running q w)
started_runs p q w = ground arith

ended_runs :
    (p q : ℕ) (w : Commands)
    → is_running q (commands.wait p (commands.cancel p w)) ≡ (not (p == q) && is_running q w)
ended_runs p q w = ground arith

abbrev commands_law : DaemonLaws commands second_refused
commands_law = record {
  runs = is_running;
  pipe-new = λ c p w e. piped_is_new c p w e;
  start-runs = λ p q w h. started_runs p q w;
  end-runs = λ p q w. ended_runs p q w;
  mkdir-runs = λ a b q w. refl;
  write-runs = λ a b n q w. refl;
  pipe-runs = λ c q w. refl;
  read-runs = λ p n q w. refl;
  remove-runs = λ a q w. refl;
  dial-runs = λ a q w. refl;
  auth-runs = λ a q w. refl;
  hello-runs = λ a q w. refl;
  close-runs = λ a q w. refl;
  export-runs = λ a v p i q w. refl;
  request-runs = λ a name q w. refl;
}

abbrev no_buses : Buses Commands
no_buses = record { world = record { next = 0; alive = λ q. false }; private_buses = [] }

cleanup-lost_example :
    (length (open_sessions commands second_refused 2 no_buses).1.private_buses
        + length (lost commands second_refused 2 no_buses [])
      ≡ 2)
    × (is_running 1 (cleaned_up commands second_refused 2 no_buses).1
        ≡ is_in 1 (lost commands second_refused 2 no_buses []))
unfolding open_sessions open_session kept setup_private_bus start_private_dbus_server or_exit
    launch_daemon removed setup_session text_eq export_each session_entries acquire owner_only
    cleanup_private_buses clean_up close_bus kill bus_config
cleanup-lost_example =
    cleanup-lost commands second_refused commands_law 2 1 no_buses (λ p. refl) refl refl refl

-- Whether the connection of the GDM service is open; the objects of its bus do not answer.
abbrev manager_bus : Bus Bool
manager_bus = record {
  call = λ o m args w. (ok (text [] ∷ []), w);
  get_property = λ o m w. (err (message "no property"), w);
  store_object_path = λ vs. err (message "no path");
  store_texts = λ vs. ok [];
  variant_string = λ v. [];
}

abbrev mute_session : PrivateBus Bool
mute_session = record {
  dial = λ a w. (ok tt, true);
  auth = λ w. (ok tt, w);
  hello = λ w. (ok tt, w);
  bus = record manager_bus { call = λ o m args w. (err (message "no answer"), w) };
  add_signal_channel = λ w. w;
  remove_signal_channel = λ w. w;
  close_connection = λ w. false;
}

connection_laws : ConnectionLaws manager_bus mute_session
connection_laws = record {
  is_open = λ w. w;
  dial_ok = λ a w h. refl;
  dial_err = λ a w h. absurd (ground (arith, h));
  call-open = λ o m args w. refl;
  private-open = λ o m args w. refl;
  auth-open = λ w. refl;
  hello-open = λ w. refl;
  close-open = λ w. refl;
}

new-close-open_example :
    let end = Gdm.new manager_bus mute_session [] false in
    (end.1 ≡ is_ok (dial_session manager_bus mute_session false).0)
    × ((is_ok end.0 && not end.1) ≡ false)
    × ((end.0 ≡ ok made_service) ⊎ (is_ok end.0 ≡ false))
    × (close mute_session made_service end.1 ≡ false)
unfolding connection_laws
new-close-open_example = new-close-open manager_bus mute_session connection_laws false refl

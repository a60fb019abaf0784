-- ===== src/Tests/Managers.antt =====
-- The features of the accessibility service on a store of settings, and the manager.
use ubuntu_installer_latest.Telemetry
use ubuntu_installer_latest.Daemon
use ubuntu_installer_latest.Daemon.{
  Host, build, registered, select_socket, manual_socket, apply_args, with_socket_path,
}
use ubuntu_installer_latest.App.Serve.{AppState, daemon_options, serve, quit}
use ubuntu_installer_latest.App.Serve.Laws.{serve-close_ready}
use ubuntu_installer_latest.Base.{◌≢◌, none, panic, codes, arith, apply_options, is_empty}
use ubuntu_installer_latest.Base.{
  Text, str_eq, if◌then◌else◌, Bool, true, false, ◌&&◌, ◌≡◌, refl, [], String, ok, err, panic,
  message, is_ok, status, internal, on_err,
}
use ubuntu_installer_latest.System.{Bus, Settings}
use ubuntu_installer_latest.Accessibility
use ubuntu_installer_latest.Accessibility.{Doubles, set_boolean_settings, written}
use ubuntu_installer_latest.Accessibility.Features.Effects.{switch-get}
use ubuntu_installer_latest.Accessibility.Features.{
  reduced_motion, sticky_keys, StoreLaws, get, switch,
}
use ubuntu_installer_latest.Keyboard
use ubuntu_installer_latest.Keyboard.Service.{ValueSettings}
use ubuntu_installer_latest.Gdm
use ubuntu_installer_latest.Gdm.{PrivateBus}
use ubuntu_installer_latest.User
use ubuntu_installer_latest.Locale
use ubuntu_installer_latest.Privacy
use ubuntu_installer_latest.Timezone
use ubuntu_installer_latest.Manager.{
  finish, unless_errs, all_errs, gather, assemble, to_option, Surroundings, Made, bus_of, make_all,
  new_manager, stop, Manager,
}
use ubuntu_installer_latest.Manager.Startup.{AllMade, Starts, new_manager-Starts}

-- A store: the Boolean keys, and one number.
record Store : Type 0 where
  flags : String → String → Bool
  scaling : Bool

abbrev store_settings : Settings Store
store_settings = record {
  is_writable = λ schema key w. (true, w);
  set_boolean = λ schema key b w. (
    true,
    record w { flags = λ sc k. if str_eq sc schema && str_eq k key then b else w.flags sc k },
  );
  get_boolean = λ schema key w. (w.flags schema key, w);
}

-- The large scaling is `true`, the default one `false`.
abbrev store_doubles : Doubles Store Bool
store_doubles = record {
  set_double = λ schema key d w. (true, record w { scaling = d });
  get_double = λ schema key w. (w.scaling, w);
  text_scaling_default = false;
  text_scaling_large = true;
  double_eq = λ a b. a && b;
}

store_laws : StoreLaws store_settings store_doubles
store_laws = record {
  value = λ schema key w. w.flags schema key;
  number = λ schema key w. w.scaling;
  get_value = λ schema key w. refl;
  set_value = λ schema key b sc k w. refl;
  set_number = λ schema key b sc k w. refl;
  get_double_number = λ schema key w. refl;
  set_double_value = λ schema key d sc k w. refl;
  set_double_number = λ schema key d w. refl;
  large_eq = refl;
  default_ne = refl;
}

abbrev all_off : Store
all_off = record { flags = λ schema key. false; scaling = false }

switch-get_example :
    let end = switch store_settings store_doubles reduced_motion true all_off in
    (is_ok end.0 ≡ true → (get store_settings store_doubles reduced_motion end.1).0 ≡ ok true)
    × (is_ok end.0 ≡ false
        → (get store_settings store_doubles sticky_keys end.1).0
          ≡ (get store_settings store_doubles sticky_keys all_off).0)
    × ((sticky_keys ≡ reduced_motion → ⊥)
        → (get store_settings store_doubles sticky_keys end.1).0
          ≡ (get store_settings store_doubles sticky_keys all_off).0)
switch-get_example =
    switch-get store_settings store_doubles store_laws reduced_motion sticky_keys true all_off

abbrev pub Nothing : Type 0
Nothing = Unit {0}

abbrev answering : Bus Nothing
answering = record {
  call = λ o m args w. (ok [], w);
  get_property = λ o m w. (err (message "no property"), w);
  store_object_path = λ vs. err (message "no path");
  store_texts = λ vs. ok [];
  variant_string = λ v. [];
}

abbrev unconnected : Bus Nothing
unconnected = record answering { call = λ o m args w. (panic, w) }

-- Everything is there but the session bus of GDM.
abbrev pub around : Surroundings Nothing Text
around = record {
  connect_system_bus = λ w. (ok tt, w);
  bus = record answering {
    call = λ o m args w.
        (if str_eq m Gdm.open_session then err (message "no display manager") else ok [], w);
  };
  nil_bus = unconnected;
  close_bus = λ w. (ok tt, w);
  settings = record {
    is_writable = λ schema key w. (true, w);
    set_boolean = λ schema key b w. (true, w);
    get_boolean = λ schema key w. (true, w);
  };
  value_settings = record {
    is_writable = λ schema key w. (true, w);
    set_value = λ schema key v w. (true, w);
    variant_parse = λ type t. ok t;
  };
  private = record {
    dial = λ address w. (ok tt, w);
    auth = λ w. (ok tt, w);
    hello = λ w. (ok tt, w);
    bus = answering;
    add_signal_channel = λ w. w;
    remove_signal_channel = λ w. w;
    close_connection = λ w. w;
  };
  sysmetrics = record {
    package_collect = λ w. (ok [], w);
    package_collect_and_send = λ r b url w. (ok tt, w);
    package_send_decline = λ b url w. (ok tt, w);
    error_string = λ e. [];
  };
}

abbrev made : Made around
made = record {
  connected = ok tt;
  user = ok User.Service.default_service;
  locale = ok Locale.default_service;
  keyboard = ok Keyboard.Service.default_service;
  privacy = ok Privacy.default_service;
  timezone = ok (record { timezone = Timezone.timezone_object });
  accessibility = ok Accessibility.default_service;
  gdm = err (status internal (on_err "failed to call Manager: %s" (message "no display manager")));
}

new_manager-Starts_example :
    (AllMade around made → Starts around made (new_manager around tt).0)
    × (is_ok (new_manager around tt).0 ≡ true → AllMade around made)
unfolding make_all User.Service.new bus_of Locale.new Keyboard.Service.new
    Keyboard.Service.check_writable Privacy.new Privacy.check_writable Timezone.new
    Accessibility.new Accessibility.finish_new Accessibility.on_checked Accessibility.check_all
    Accessibility.check_writable Gdm.new
new_manager-Starts_example = new_manager-Starts around made tt tt refl

abbrev pub host : Host Nothing
host = record {
  listen_unix = λ path w. (ok (record { address = path }), w);
  chmod = λ path mode w. (ok tt, w);
  stat = λ path w. (ok tt, w);
  activation_listeners = λ w. (ok [], w);
  sd_notify = λ unset message w. (ok true, w);
  register = λ w. w;
  serve_grpc = λ lis w. (ok tt, w);
  stop_grpc = λ w. w;
  graceful_stop_grpc = λ w. w;
}

abbrev app : AppState Nothing
app = record { world = tt; daemon = none; ready_closed = false }

pub made_returns : (new_manager around tt).0 ≢ panic
unfolding new_manager finish unless_errs all_errs gather assemble to_option Telemetry.new
    Telemetry.sysmetrics_impl apply_options make_all User.Service.new bus_of Locale.new
    Keyboard.Service.new Keyboard.Service.check_writable Privacy.new Privacy.check_writable
    Timezone.new Accessibility.new Accessibility.finish_new Accessibility.on_checked
    Accessibility.check_all Accessibility.check_writable Gdm.new
made_returns h = cc

daemon_returns : (v : Nothing) → (Daemon.new host (daemon_options (codes "p")) v).0 ≢ panic
unfolding Daemon.new build registered select_socket manual_socket apply_args with_socket_path
    is_empty daemon_options
daemon_returns v h = cc

serving_returns :
    (u : Nothing) (d : Daemon.Daemon Nothing)
    → (Daemon.new host (daemon_options (codes "p")) u).0 ≡ ok d
    → (v : Nothing) → (Daemon.serve host d v).0 ≢ panic
unfolding Daemon.new build registered select_socket manual_socket apply_args with_socket_path
    is_empty daemon_options Daemon.serve
serving_returns u d e v h = ground (arith, e, h)

pub stop_returns : (m : Manager Nothing) (v : Nothing) → (stop around m v).0 ≢ panic
unfolding stop
stop_returns m v h = cc

serve-close_ready_example :
    (quit host app ≡ none)
    × ((serve around host (codes "p") app).1.ready_closed ≡ true)
    × ((serve around host (codes "p") app).0 ≢ panic)
    × (quit host (serve around host (codes "p") app).1 ≢ none)
serve-close_ready_example =
    serve-close_ready around host (codes "p") app refl made_returns daemon_returns serving_returns
      stop_returns

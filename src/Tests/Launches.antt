-- ===== src/Tests/Launches.antt =====
-- The launch of a session on a private bus that logs the calls, the daemon's socket, and the
-- manager.
use ubuntu_installer_latest.Gdm.Launch.{finished}
use ubuntu_installer_latest.Gdm.Launch.Completion.{launch_completes}
use ubuntu_installer_latest.Base.{inl, inr}
use ubuntu_installer_latest.Base.{
  codes, is_empty, true, false, ◌≡◌, refl, some, List, [], ◌∷◌, String, text, ok, err, message,
}
use ubuntu_installer_latest.System.{Bus}
use ubuntu_installer_latest.Gdm
use ubuntu_installer_latest.Gdm.{PrivateBus}
use ubuntu_installer_latest.Gdm.Launch.{
  Event, received, GdmServiceRequest, secret_info_query, session_opened, launch_desktop_session,
  after_begin, begin_user, wait_for_signals, after_event, on_event, on_signal, on_session_opened,
  on_secret_info_query, cleaned, context_done, start_session_when_ready,
}
use ubuntu_installer_latest.Gdm.Launch.Protocol.{relevant, Succeeds}
use ubuntu_installer_latest.Gdm.Launch.Session.{launch-relevant, launch-secret, launch-Succeeds}
use ubuntu_installer_latest.Daemon.{Host, with_socket_path, new}
use ubuntu_installer_latest.Daemon.Laws.{with_activation, new_listens}

-- The state is the list of the names of the calls.
abbrev log_bus : Bus (List String)
log_bus = record {
  call = λ o m args w. (ok (text (codes "unix:a") ∷ []), m ∷ w);
  get_property = λ o m w. (ok (text []), w);
  store_object_path = λ vs. err (message "no path");
  store_texts = λ vs. ok [];
  variant_string = λ v. [];
}

abbrev log_private : PrivateBus (List String)
log_private = record {
  dial = λ address w. (ok tt, w);
  auth = λ w. (ok tt, w);
  hello = λ w. (ok tt, w);
  bus = log_bus;
  add_signal_channel = λ w. "+" ∷ w;
  remove_signal_channel = λ w. "-" ∷ w;
  close_connection = λ w. "x" ∷ w;
}

abbrev credentials : GdmServiceRequest
credentials = record { username = codes "a"; password = codes "p" }

abbrev opened : Event
opened = received (record { name = session_opened; body = text (codes "s") ∷ [] })

abbrev asked : Event
asked = received (record { name = secret_info_query; body = text (codes "q") ∷ [] })

abbrev unknown : Event
unknown = received (record { name = "Info"; body = [] })

launch-relevant_example :
    launch_desktop_session log_private Gdm.default_service
      (some credentials)
      (asked ∷ opened ∷ [])
      []
    ≡ launch_desktop_session log_private Gdm.default_service
        (some credentials)
        (asked ∷ unknown ∷ opened ∷ [])
        []
unfolding relevant
launch-relevant_example =
    launch-relevant log_private Gdm.default_service credentials (asked ∷ unknown ∷ opened ∷ []) []

launch-secret_example :
    launch_desktop_session log_private Gdm.default_service
      (some credentials)
      (asked ∷ opened ∷ [])
      []
    ≡ launch_desktop_session log_private Gdm.default_service
        (some (record { username = codes "a"; password = codes "x" }))
        (asked ∷ opened ∷ [])
        []
launch-secret_example =
    launch-secret log_private Gdm.default_service (codes "a") (codes "p") (codes "x")
      (asked ∷ opened ∷ []) [] (inr (λ msg w. refl), (inl refl, tt))

launch-Succeeds_example : Succeeds (asked ∷ opened ∷ [])
unfolding launch_desktop_session after_begin begin_user wait_for_signals after_event on_event
    on_signal on_session_opened on_secret_info_query cleaned is_empty
launch-Succeeds_example =
    launch-Succeeds log_private Gdm.default_service credentials (asked ∷ opened ∷ []) [] refl

-- A host with one socket to activate.
abbrev one_socket : Host (List String)
one_socket = record {
  listen_unix = λ path w. (ok (record { address = path }), w);
  chmod = λ path mode w. (ok tt, w);
  stat = λ path w. (ok tt, w);
  activation_listeners = λ w. (ok (record { address = codes "s" } ∷ []), w);
  sd_notify = λ unset message w. (ok true, w);
  register = λ w. w;
  serve_grpc = λ lis w. (ok tt, w);
  stop_grpc = λ w. w;
  graceful_stop_grpc = λ w. w;
}

new_listens_example :
    (is_empty (codes "p") ≡ false
      → new (with_activation (λ w. (ok [], w)) one_socket) (with_socket_path (codes "p") ∷ []) []
        ≡ new one_socket (with_socket_path (codes "p") ∷ []) [])
    × ((new one_socket [] []).0
          ≡ ok (record {
            lis = record { address = codes "s" };
            systemd_sd_notifier = one_socket.sd_notify;
          })
        → (one_socket.activation_listeners []).0 ≡ ok (record { address = codes "s" } ∷ []))
new_listens_example =
    new_listens one_socket (codes "p") (λ w. (ok [], w))
      (record { lis = record { address = codes "s" }; systemd_sd_notifier = one_socket.sd_notify })
      []

launch_completes_example :
    (v : List String) × (launch_desktop_session log_private Gdm.default_service
        (some credentials)
        (asked ∷ unknown ∷ opened ∷ context_done ∷ [])
        []
      ≡ (finished (ok tt), "-" ∷ start_session_when_ready ∷ v))
unfolding is_empty
launch_completes_example =
    launch_completes log_private Gdm.default_service (λ o m args w. refl) credentials (codes "s") []
      (asked ∷ unknown ∷ []) (context_done ∷ []) [] refl
      ((refl, inr (codes "q", [], refl)), ((refl, inl refl), tt))

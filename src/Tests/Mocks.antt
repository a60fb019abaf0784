-- ===== src/Tests/Mocks.antt =====
-- The services over their mocks, at concrete systems.
use ubuntu_installer_latest.Base.{
  String, Text, codes, str_eq, is_empty, ◌≡◌, refl, List, [], ◌∷◌, ◌++◌, if◌then◌else◌, some, Err,
  Result, ok, err, Run, Variant, text, texts, bool, message, replies,
}
use ubuntu_installer_latest.System.{Bus, Object}
use ubuntu_installer_latest.Gdm
use ubuntu_installer_latest.Gdm.{PrivateBus}
use ubuntu_installer_latest.Gdm.Launch.{finished, begin_verification, launch_desktop_session}
use ubuntu_installer_latest.Timezone
use ubuntu_installer_latest.Timezone.{is_valid_timezone, set_timezone, get_timezone}
use ubuntu_installer_latest.Testutils.Actions.{
  ActionFiles, write_action_to_file, append_action, or_exit, apply_options,
}
use ubuntu_installer_latest.Testutils.Timedate.{
  TimedateBus, mock_list_timezones, mock_set_timezone, mock_get_timezone,
}
use ubuntu_installer_latest.Testutils.Timedate.Laws.{ServesTimedate}
use ubuntu_installer_latest.Testutils.GdmMock
use ubuntu_installer_latest.Testutils.GdmMock.{
  Sender, Session, begin_verification_for_user, start_session_when_ready,
}
use ubuntu_installer_latest.Testutils.GdmMock.Script.{
  Case, case_of, heard, verdict, said, log_all, named, Traffic, called, sent,
}
use ubuntu_installer_latest.Testutils.GdmMock.Closed.{ServesGdm, noted, launch-closed}

-- A connection that keeps what passes, the last piece first.
abbrev keeping : Sender (List Traffic)
keeping = record { is_valid = λ m. ok tt; send = λ m w. (ok tt, sent m ∷ w) }

abbrev caller : Text
caller = codes ":1.7"

abbrev keep : Traffic → List Traffic → List Traffic
keep t w = t ∷ w

abbrev call_mock : Object → String → List Variant → Run (Session (List Traffic)) Err (List Variant)
call_mock o m (text a ∷ text b ∷ []) g =
    if str_eq m begin_verification
    then replies (λ t. text t ∷ []) (begin_verification_for_user keeping a b caller g)
    else replies (λ _. []) (GdmMock.answer_query keeping a b caller g)
call_mock o m (text a ∷ bool b ∷ []) g = replies (λ _. []) (start_session_when_ready keeping a b g)
call_mock o m _ g = (err (message "no such method"), g)

abbrev call_session :
    Object → String → List Variant → Run (Session (List Traffic)) Err (List Variant)
call_session o m args g = call_mock o m args (noted keep (called m args) g)

abbrev session_bus : PrivateBus (Session (List Traffic))
session_bus = record {
  dial = λ address g. (ok tt, g);
  auth = λ g. (ok tt, g);
  hello = λ g. (ok tt, g);
  bus = record {
    call = call_session;
    get_property = λ o m g. (err (message "no property"), g);
    store_object_path = λ vs. err (message "no path");
    store_texts = λ vs. ok [];
    variant_string = λ v. [];
  };
  add_signal_channel = λ g. g;
  remove_signal_channel = λ g. g;
  close_connection = λ g. g;
}

session_served : ServesGdm session_bus Gdm.default_service keeping caller keep
session_served = record {
  serves_begin = λ service username g. refl;
  serves_answer = λ service answer g. refl;
  serves_start = λ service b g. refl;
  adds = λ g. refl;
  removes = λ g. refl;
  sends = λ m w. refl;
  valid_question = refl;
  valid_opening = refl;
  valid_refusal = refl;
}

abbrev nobody : Session (List Traffic)
nobody = record { world = []; username = [] }

abbrev case : Case
case = case_of (codes "myuser") (codes "mypassword")

launch-closed_example :
    launch_desktop_session session_bus Gdm.default_service
      (some (record { username = codes "myuser"; password = codes "mypassword" }))
      (heard case)
      nobody
    ≡ (
      finished (verdict case),
      record {
        world = log_all keep (said caller (codes "myuser") (codes "mypassword") case) [];
        username = named case (codes "myuser") [];
      },
    )
unfolding is_empty
launch-closed_example =
    launch-closed session_bus Gdm.default_service keeping caller keep session_served
      (codes "myuser") (codes "mypassword") nobody refl

-- A log, the last action first.
abbrev pub log_files : ActionFiles (List Text)
log_files = record {
  open_append = λ path w. (ok tt, w);
  write_string = λ path line w. (ok tt, line ∷ w);
  read_file = λ path w. (ok [], w);
}

abbrev london : TimedateBus
london = record { path = codes "timedate1" }

abbrev call_timedate : Object → String → List Variant → Run (List Text) Err (List Variant)
call_timedate o m [] w =
    replies (λ zones. texts zones ∷ []) (mock_list_timezones log_files london w)
call_timedate o m (text tz ∷ bool b ∷ []) w =
    replies (λ _. []) (mock_set_timezone log_files london tz b w)
call_timedate o m _ w = (err (message "no such method"), w)

abbrev zones_of : List Variant → Result Err (List Text)
zones_of (texts zones ∷ []) = ok zones
zones_of _ = err (message "no list")

abbrev timedate_bus : Bus (List Text)
timedate_bus = record {
  call = call_timedate;
  get_property = λ o m w. mock_get_timezone log_files london [] [] w;
  store_object_path = λ vs. err (message "no path");
  store_texts = zones_of;
  variant_string = λ v. [];
}

abbrev timezones : Timezone.Service
timezones = record { timezone = Timezone.timezone_object }

timedate_served : ServesTimedate timedate_bus timezones log_files london
unfolding mock_get_timezone
timedate_served = record {
  serves_list = λ w. refl;
  serves_set = λ tz b w. refl;
  serves_get = λ w. refl;
  stores = λ zones. refl;
}

pub action_logged :
    (a : Text) (w : List Text)
    → write_action_to_file log_files a [] w ≡ (ok tt, (a ++ codes "\n") ∷ w)
unfolding write_action_to_file append_action or_exit apply_options
action_logged a w = refl

-- ===== src/Testutils/Timedate.antt =====
-- The mock of systemd-timedated: timedate_mock.go.
pub mod Laws
pub mod Served
use ubuntu_installer_latest.Base.{
  Text, codes, text_eq, String, Bool, List, [], ◌∷◌, ◌++◌, if◌then◌else◌, Err, Result, ok, err, Run,
  Variant, text, dbus_error, pure, throw, ◌>>=◌, ◌>>◌,
}
use ubuntu_installer_latest.Base.Strings.{has_prefix}
use ubuntu_installer_latest.Testutils.Description.{
  Node, Interface, Method, Arg, in_arg, out_arg, properties_description, peer_node, inward,
}
use ubuntu_installer_latest.System.{dbus_timedate_prefix, dbus_peer_prefix}
use ubuntu_installer_latest.Testutils.Actions.{ActionFiles, write_action_to_file}
use ubuntu_installer_latest.Testutils.Exports.{
  Conn, Entry, mock, introspectable, introspectable_interface, properties_interface, freedesktop,
  export_mock, entries_of,
}

pub record TimedateBus : Type 0 where
  pub path : Text

abbrev pub failed : Text
failed = codes "org.freedesktop.locale1.Error.Failed"

-- `dbus.NewError(name, []interface{}{message})`.
abbrev pub requested : Text → Err
requested method =
    dbus_error failed
      (text (codes "error requested in " ++ (method ++ codes " mocked method")) ∷ [])

abbrev pub mocked_timezones : List Text
mocked_timezones = codes "Europe/London" ∷ codes "Asia/Tokyo" ∷ codes "Africa/Johannesburg" ∷ []

module _ {W : Type 0} (files : ActionFiles W) (t : TimedateBus) where
  unfoldable pub mock_list_timezones : Run W Err (List Text)
  mock_list_timezones w =
      if text_eq t.path (codes "gettimezoneserror")
      then (err (requested (codes "ListTimezones")), w)
      else (ok mocked_timezones, w)

  unfoldable pub mock_set_timezone : Text → Bool → Run W Err (Unit {0})
  mock_set_timezone timezone some_bool w =
      if has_prefix timezone (codes "error")
      then (err (requested (codes "SetTimezone")), w)
      else write_action_to_file files (codes "timedate1.SetTimezone: " ++ timezone) [] w

  unfoldable pub mock_get_timezone : Text → Text → Run W Err Variant
  mock_get_timezone interface_name property_name w =
      if has_prefix t.path (codes "gettimezoneserror")
      then (err (requested (codes "Get")), w)
      else (ok (text (codes "Africa/Johannesburg")), w)

-- `intro` of `ExportTimedateMock`.
abbrev pub timedate_node : Node
timedate_node =
    record {
      name = dbus_timedate_prefix;
      methods =
          record { name = "SetTimezone"; args = in_arg "name" "s" ∷ in_arg "someBool" "b" ∷ [] }
          ∷ record { name = "ListTimezones"; args = out_arg "timezones" "as" ∷ [] }
          ∷ [];
      properties = [];
    }
    ∷ properties_description
    ∷ []

-- The exports of one mock.
unfoldable pub timedate_entries : Text → List Entry
timedate_entries path =
    record {
      value = mock "timedate" path;
      path = freedesktop path;
      interface = dbus_timedate_prefix;
      failure = "could not export Timedate mock: %w";
    }
    ∷ record {
      value = introspectable timedate_node;
      path = freedesktop path;
      interface = introspectable_interface;
      failure = "could not export introspectable for timedate mock: %w";
    }
    ∷ record {
      value = mock "timedate" path;
      path = freedesktop path;
      interface = dbus_peer_prefix;
      failure = "could not export Peer mock: %w";
    }
    ∷ record {
      value = introspectable peer_node;
      path = freedesktop path;
      interface = introspectable_interface;
      failure = "could not export introspectable for Peer mock: %w";
    }
    ∷ record {
      value = mock "timedate" path;
      path = freedesktop path;
      interface = properties_interface;
      failure = "could not export DBus Properties mock: %w";
    }
    ∷ []

abbrev pub timedate_paths : List Text
timedate_paths = codes "timedate1" ∷ codes "gettimezoneserror" ∷ []

unfoldable pub export_timedate_mock : {W : Type 0} → Conn W → Run W Err (Unit {0})
export_timedate_mock conn =
    export_mock conn (entries_of timedate_entries timedate_paths) dbus_timedate_prefix
      "failed to acquire account name on timedate system bus: %w"
      "failed to acquire account name on timedate system bus: name is already taken"

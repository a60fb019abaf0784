-- ===== src/Testutils/LocaleMock.antt =====
-- The mock of systemd-localed: locale_mock.go.
pub mod Values
pub mod Laws
use ubuntu_installer_latest.Base.{
  Text, codes, text_eq, Bool, none, List, [], ◌∷◌, if◌then◌else◌, Err, Result, ok, err, panic, Run,
  Variant, text, other,
}
use ubuntu_installer_latest.Testutils.Description.{
  Node, in_arg, properties_description, peer_node, inward,
}
use ubuntu_installer_latest.System.{dbus_locale_prefix, dbus_peer_prefix}
use ubuntu_installer_latest.Testutils.Timedate.{requested}
use ubuntu_installer_latest.Testutils.Exports.{
  Conn, Entry, mock, introspectable, introspectable_interface, properties_interface, freedesktop,
  export_mock, entries_of,
}

pub record LocaleBus : Type 0 where
  pub path : Text

-- A failure for one path, and a value for the others.
abbrev pub unless_path : Text → Text → Result Err Variant → Result Err Variant
unless_path path failing r = if text_eq path failing then err (requested (codes "Get")) else r

-- A value that is no string for one path.
abbrev pub unless_parse : Text → Text → Result Err Variant → Result Err Variant
unless_parse path failing r = if text_eq path failing then ok other else r

module _ (l : LocaleBus) where
  -- The `switch` on the name of the property.
  unfoldable pub locale_value : Text → Result Err Variant
  locale_value name =
      if text_eq name (codes "Locale")
      then ok (
          text (
            if text_eq l.path (codes "jsonlexists")
            then codes "LANG=de_DE.UTF-8"
            else codes "LANG=xh_ZA.UTF-8"))
      else if text_eq name (codes "X11Model")
      then unless_path l.path (codes "x11modelerror")
          (unless_parse l.path (codes "x11modelparseerror") (ok (text (codes "ok"))))
      else if text_eq name (codes "X11Options")
      then unless_path l.path (codes "x11optionserror")
          (unless_parse l.path (codes "x11optionsparseerror") (ok (text (codes "ok"))))
      else if text_eq name (codes "X11Layout")
      then unless_path l.path (codes "x11layouterror") (ok (text (codes "de")))
      else if text_eq name (codes "X11Variant")
      then unless_path l.path (codes "x11varianterror") (ok (text (codes "workman")))
      else err (requested (codes "Get"))

module _ {W : Type 0} (l : LocaleBus) where
  unfoldable pub mock_set_locale : List Text → Bool → Run W Err (Unit {0})
  mock_set_locale [] some_bool w = (panic, w)
  mock_set_locale (locale ∷ _) some_bool w =
      if text_eq locale (codes "locale_error")
      then (err (requested (codes "SetLocale")), w)
      else (ok tt, w)

  unfoldable pub mock_set_x11_keyboard :
      Text → Text → Text → Text → Bool → Bool → Run W Err (Unit {0})
  mock_set_x11_keyboard layout model variant options some_bool some_other_bool w =
      if text_eq layout (codes "x11keyboarderror")
      then (err (requested (codes "SetX11Keyboard")), w)
      else (ok tt, w)

  unfoldable pub mock_get_locale : Text → Text → Run W Err Variant
  mock_get_locale interface_name property_name w =
      if text_eq l.path (codes "localeerror")
      then (err (requested (codes "Get")), w)
      else (locale_value l property_name, w)

-- `intro` of `ExportLocaleMock`. The last two arguments of SetX11Keyboard are given their name without an
-- equals sign.
abbrev pub locale_node : Node
locale_node =
    record {
      name = dbus_locale_prefix;
      methods =
          record { name = "SetLocale"; args = in_arg "name" "as" ∷ in_arg "someBool" "b" ∷ [] }
          ∷ record {
            name = "SetX11Keyboard";
            args =
                in_arg "model" "s"
                ∷ in_arg "layout" "s"
                ∷ in_arg "variant" "s"
                ∷ in_arg "options" "s"
                ∷ record { name = none; direction = inward; type = "b" }
                ∷ record { name = none; direction = inward; type = "b" }
                ∷ [];
          }
          ∷ [];
      properties = [];
    }
    ∷ properties_description
    ∷ []

unfoldable pub locale_entries : Text → List Entry
locale_entries path =
    record {
      value = mock "locale" path;
      path = freedesktop path;
      interface = dbus_locale_prefix;
      failure = "could not export Locale mock: %w";
    }
    ∷ record {
      value = introspectable locale_node;
      path = freedesktop path;
      interface = introspectable_interface;
      failure = "could not export introspectable for accounts mock: %w";
    }
    ∷ record {
      value = mock "locale" path;
      path = freedesktop path;
      interface = dbus_peer_prefix;
      failure = "could not export Peer mock: %w";
    }
    ∷ record {
      value = introspectable peer_node;
      path = freedesktop path;
      interface = introspectable_interface;
      failure = "could not export introspectable for Peer mock: %w";
    }
    ∷ record {
      value = mock "locale" path;
      path = freedesktop path;
      interface = properties_interface;
      failure = "could not export DBus Properties mock: %w";
    }
    ∷ []

abbrev pub locale_paths : List Text
locale_paths =
    codes "locale1"
    ∷ codes "localeerror"
    ∷ codes "x11modelerror"
    ∷ codes "x11optionserror"
    ∷ codes "x11keyboarderror"
    ∷ codes "x11modelparseerror"
    ∷ codes "x11optionsparseerror"
    ∷ codes "x11layouterror"
    ∷ codes "x11varianterror"
    ∷ codes "jsonlexists"
    ∷ []

unfoldable pub export_locale_mock : {W : Type 0} → Conn W → Run W Err (Unit {0})
export_locale_mock conn =
    export_mock conn (entries_of locale_entries locale_paths) dbus_locale_prefix
      "failed to acquire account name on local system bus: %w"
      "failed to acquire account name on local system bus: name is already taken"

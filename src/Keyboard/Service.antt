-- ===== src/Keyboard/Service.antt =====
-- The state and the constructor of the Keyboard service (keyboard.go).
use ubuntu_installer_latest.Base.{Text, codes, Bool, String, List, [], if◌then◌else◌}
use ubuntu_installer_latest.Base.{
  Err, Result, ok, err, Run, internal, status_message, or_message, apply_options, pure, ◌>>=◌, ◌>>◌,
}
use ubuntu_installer_latest.System.{Object, Bus, ping}

-- What the service uses of gio and glib: the settings of a schema, and the variants of a type `V`
-- that are parsed from a text and a type string.
pub record ValueSettings (W V : Type 0) : Type 0 where
  pub is_writable : String → String → W → Bool × W
  pub set_value : String → String → V → W → Bool × W
  pub variant_parse : String → Text → Result Err V

pub record Service : Type 0 where
  pub locale : Object
  pub gsettings : String
  pub keyboardl18n_path : Text

abbrev pub locale_object : Object
locale_object = record {
  destination = "org.freedesktop.locale1";
  path = codes "/org/freedesktop/locale1";
}

abbrev pub default_service : Service
default_service = record {
  locale = locale_object;
  gsettings = "org.gnome.desktop.input-sources";
  keyboardl18n_path = codes "kbds/";
}

module _ {W V : Type 0} (bus : Bus W) (settings : ValueSettings W V) where
  unfoldable pub check_writable : Service → Run W Err Service
  check_writable s w =
      let (writable, v) = settings.is_writable s.gsettings "sources" w in
      if writable
      then (ok s, v)
      else (err (status_message internal "failed to connect to gsettings"), v)

  unfoldable pub new : List (Service → Run W Err Service) → Run W Err Service
  new opts = do
    s ← apply_options opts default_service
    s ← check_writable s
    or_message internal "failed to ping default DBus locale1 object" (bus.call s.locale ping [])
    pure s

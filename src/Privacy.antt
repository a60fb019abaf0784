-- ===== src/Privacy.antt =====
-- The Privacy service: provd/internal/services/privacy/privacy.go.
pub mod Laws
use ubuntu_installer_latest.Base.{
  Bool, true, false, Option, none, some, String, List, if◌then◌else◌, not,
}
use ubuntu_installer_latest.Base.{
  Empty, Err, Result, ok, err, Run, invalid_argument, internal, status_message, apply_options,
  throw, ◌>>=◌, ◌>>◌, pure, require,
}
use ubuntu_installer_latest.System.{Settings}

-- The schema of the settings object; the settings themselves are the parameter `settings`.
pub record Service : Type 0 where
  pub location_settings : String

abbrev pub default_service : Service
default_service = record { location_settings = "org.gnome.system.location" }

module _ {W : Type 0} (settings : Settings W) where
  -- A setter reports whether it has written.
  abbrev pub written : Err → Bool × W → Result Err Unit × W
  written e (true, w) = (ok tt, w)
  written e (false, w) = (err e, w)

  unfoldable pub check_writable : Service → Run W Err Service
  check_writable s w =
      let (writable, v) = settings.is_writable s.location_settings "enabled" w in
      if writable
      then (ok s, v)
      else (err (status_message internal "failed to connect to location settings"), v)

  unfoldable pub new : List (Service → Run W Err Service) → Run W Err Service
  new opts = do s ← apply_options opts default_service; check_writable s

  module _ (s : Service) where
    unfoldable pub get_location_services : Option Empty → Run W Err Bool
    get_location_services none w = (err (status_message invalid_argument "empty request"), w)
    get_location_services (some _) w =
        let (enabled, v) = settings.get_boolean s.location_settings "enabled" w in (ok enabled, v)

    unfoldable pub enable_location_services : Option Empty → Run W Err Unit
    enable_location_services none w = (err (status_message invalid_argument "empty request"), w)
    enable_location_services (some _) w =
        written (status_message internal "failed to enable location services")
          (settings.set_boolean s.location_settings "enabled" true w)

    unfoldable pub disable_location_services : Option Empty → Run W Err Unit
    disable_location_services none w = (err (status_message invalid_argument "empty request"), w)
    disable_location_services (some _) w =
        written (status_message internal "failed to disable location services")
          (settings.set_boolean s.location_settings "enabled" false w)

-- ===== src/Timezone.antt =====
-- The Timezone service: provd/internal/services/timezone/timezone.go.
pub mod Laws
use ubuntu_installer_latest.Base.{
  Text, codes, text_eq, Bool, true, false, ◌||◌, Option, none, some, String, List, [], ◌∷◌,
  if◌then◌else◌,
}
use ubuntu_installer_latest.Base.{
  Empty, Err, Run, Variant, text, bool, message, on_text, status, invalid_argument, internal,
  status_err, status_message, or_status, or_message, apply_options, require, as_text, pure, throw,
  lift, ◌>>=◌, ◌>>◌,
}
use ubuntu_installer_latest.System.{Object, Bus, member, ping, dbus_timedate_prefix}

pub record Service : Type 0 where
  pub timezone : Object

abbrev pub timezone_object : Object
timezone_object = record {
  destination = "org.freedesktop.timedate1";
  path = codes "/org/freedesktop/timedate1";
}

abbrev pub timezone_property : String
timezone_property = member dbus_timedate_prefix ".Timezone"

abbrev pub list_timezones : String
list_timezones = member dbus_timedate_prefix ".ListTimezones"

abbrev pub set_timezone_method : String
set_timezone_method = member dbus_timedate_prefix ".SetTimezone"

-- The loop that looks for the requested timezone.
unfoldable pub is_valid_timezone : Text → List Text → Bool
is_valid_timezone requested [] = false
is_valid_timezone requested (tz ∷ rest) = text_eq requested tz || is_valid_timezone requested rest

module _ {W : Type 0} (bus : Bus W) where
  -- The options are applied before the ping, and once more after it.
  unfoldable pub new : List (Service → Run W Err Service) → Run W Err Service
  new opts = do
    s ← apply_options opts (record { timezone = timezone_object })
    or_message internal "failed to ping default DBus Timezone object" (bus.call s.timezone ping [])
    apply_options opts s

  module _ (s : Service) where
    unfoldable pub get_timezone : Option Empty → Run W Err Text
    get_timezone none = throw (status_message invalid_argument "empty request")
    get_timezone (some _) = do
      property ←
          or_status internal "failed to get current timezone: %v"
            (bus.get_property s.timezone timezone_property)
      as_text (status_message internal "failed to parse timezone") property

    unfoldable pub set_timezone : Option Text → Run W Err Unit
    set_timezone none = throw (status_message invalid_argument "empty request")
    set_timezone (some requested) = do
      timezones ←
          or_status internal "failed to list timezones: %v"
            do body ← bus.call s.timezone list_timezones []; lift (bus.store_texts body)
      require (is_valid_timezone requested timezones)
          (status invalid_argument (on_text "invalid timezone: %s" requested))
      or_status internal "failed to set timezone: %v"
          (bus.call s.timezone set_timezone_method (text requested ∷ bool false ∷ []))
      pure tt

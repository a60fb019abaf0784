-- ===== src/Locale.antt =====
-- The Locale service: provd/internal/services/locale/locale.go.
pub mod Laws
use ubuntu_installer_latest.Base.{
  ℕ, Text, codes, text_eq, is_empty, leb, ◌==◌, Bool, true, false, ◌&&◌, ◌||◌, Option, none, some,
  String, List, [], ◌∷◌, ◌++◌, if◌then◌else◌,
}
use ubuntu_installer_latest.Base.{
  Empty, Err, Result, ok, err, Run, Variant, texts, bool, message, on_text, on_err,
  invalid_argument, internal, status_err, status_message, or_status, or_message, map_err,
  apply_options, refuse_if, require, pure, throw, lift, ◌>>=◌, ◌>>◌,
}
use ubuntu_installer_latest.Base.Strings.{trim_space, fields}
use ubuntu_installer_latest.Base.Scanner.{File, scan}
use ubuntu_installer_latest.Base.Regexp.{find_group}
use ubuntu_installer_latest.System.{Object, Bus, Files, member, ping, dbus_locale_prefix}

pub record Service : Type 0 where
  pub locale : Object
  pub locale_supported_path : Text

abbrev pub locale_object : Object
locale_object = record { destination = dbus_locale_prefix; path = codes "/org/freedesktop/locale1" }

abbrev pub default_service : Service
default_service = record {
  locale = locale_object;
  locale_supported_path = codes "/usr/share/i18n/SUPPORTED";
}

abbrev pub locale_property : String
locale_property = member dbus_locale_prefix ".Locale"

abbrev pub set_locale_method : String
set_locale_method = member dbus_locale_prefix ".SetLocale"

-- `[a-zA-Z_]`.
unfoldable pub is_locale_char : ℕ → Bool
is_locale_char c = (leb b'a' c && leb c b'z') || (leb b'A' c && leb c b'Z') || c == b'_'

abbrev pub utf8_suffix : Text
utf8_suffix = codes ".UTF-8"

-- The submatch of `localRegexp`, `LANG=([a-zA-Z_]+\.UTF-8)`.
unfoldable pub find_locale : Text → Option Text
unfolding is_locale_char
find_locale s = elim (find_group is_locale_char utf8_suffix s) [
  | none ↦ none
  | some name ↦ some (name ++ utf8_suffix)
]

-- The loop of `isLocaleSupported`: the first of the fields of each line that is not blank.
unfoldable pub on_fields : Text → Text → Result Err Bool → List Text → Result Err Bool
on_fields locale line more (first ∷ second ∷ _) = if text_eq first locale then ok true else more
on_fields locale line more _ = err (on_text "invalid line format: %s" line)

unfoldable pub scan_supported : Text → List Text → Option Err → Result Err Bool
scan_supported locale [] none = ok false
scan_supported locale [] (some e) = err e
scan_supported locale (raw ∷ rest) e =
    let line = trim_space raw in
    let more = scan_supported locale rest e in
    if is_empty line then more else on_fields locale line more (fields line)

unfoldable pub is_locale_supported : {W : Type 0} → Files W → Text → Text → Run W Err Bool
is_locale_supported files locale path = do
  f ← map_err (on_err "failed to open locale file: %v") (files.open_file path)
  lift (scan_supported locale (scan f).tokens (scan f).error)

-- `len(matches) < 2` says that there is no match.
unfoldable pub on_match : {W : Type 0} → Option Text → Run W Err Text
on_match none = throw (status_message internal "unexpected locale format")
on_match (some locale) = pure locale

module _ {W : Type 0} (bus : Bus W) where
  unfoldable pub new : List (Service → Run W Err Service) → Run W Err Service
  new opts = do
    or_message internal "failed to ping default DBus locale1 object"
        (bus.call locale_object ping [])
    apply_options opts default_service

  module _ (s : Service) where
    unfoldable pub get_locale : Option Empty → Run W Err Text
    get_locale none = throw (status_message invalid_argument "received a nil request")
    get_locale (some _) = do
      locale ←
          or_status internal "failed to get locale: %v" (bus.get_property s.locale locale_property)
      on_match (find_locale (bus.variant_string locale))

    unfoldable pub set_locale : Files W → Option Text → Run W Err Unit
    set_locale files none = throw (status_message invalid_argument "received a nil request")
    set_locale files (some locale) = do
      refuse_if (is_empty locale) (status_message invalid_argument "locale must be specified")
      supported ←
          or_status internal "failed to check if locale is supported: %v"
            (is_locale_supported files locale s.locale_supported_path)
      require supported (status_message invalid_argument "locale is not supported")
      or_status internal "failed to set locale: %v"
          (bus.call s.locale set_locale_method (texts (locale ∷ []) ∷ bool false ∷ []))
      pure tt

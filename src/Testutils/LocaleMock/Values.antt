-- ===== src/Testutils/LocaleMock/Values.antt =====
-- What the mock of localed answers at each path, and what the services read in it.
use ubuntu_installer_latest.Base.{
  Option, Text, codes, text_eq, is_empty, Bool, ◌||◌, ◌≡◌, refl, if◌then◌else◌, none, some, Err,
  Result, ok, text,
}
use ubuntu_installer_latest.Base.Regexp.{find_group, drop_prefix}
use ubuntu_installer_latest.Base.Strings.{has_prefix}
use ubuntu_installer_latest.Locale.{find_locale, is_locale_char}
use ubuntu_installer_latest.Keyboard.Current.{
  KeyboardSettings, KeyboardSetup, find_language, is_lower,
}
use ubuntu_installer_latest.Testutils.LocaleMock.{
  LocaleBus, locale_value, unless_path, unless_parse,
}

-- The paths at which the mock lets the setting of the keyboard fail.
abbrev pub fails_set : Text → Bool
fails_set path =
    text_eq path (codes "localeerror")
    || text_eq path (codes "x11modelerror")
    || text_eq path (codes "x11modelparseerror")
    || text_eq path (codes "x11optionserror")
    || text_eq path (codes "x11optionsparseerror")

-- The paths at which the mock lets the keyboard be unreadable.
abbrev pub fails_get : Text → Bool
fails_get path =
    text_eq path (codes "localeerror")
    || text_eq path (codes "x11layouterror")
    || text_eq path (codes "x11varianterror")

-- The language at the other paths.
abbrev pub mocked_language : Text → Text
mocked_language path = if text_eq path (codes "jsonlexists") then codes "de" else codes "xh"

abbrev pub mocked_settings : KeyboardSettings
mocked_settings = record { layout = codes "de"; variant = codes "workman" }

-- The settings of an answer, if it is no error.
abbrev pub settings_of : Result Err KeyboardSetup → Option KeyboardSettings
settings_of (ok setup) = some setup.settings
settings_of _ = none

-- The locale at the other paths.
abbrev pub mocked_locale : Text → Text
mocked_locale path =
    if text_eq path (codes "jsonlexists") then codes "de_DE.UTF-8" else codes "xh_ZA.UTF-8"

module _ (l : LocaleBus) where
  pub locale_value-locale :
      locale_value l (codes "Locale")
      ≡ ok (
          text (
            if text_eq l.path (codes "jsonlexists")
            then codes "LANG=de_DE.UTF-8"
            else codes "LANG=xh_ZA.UTF-8"))
  unfolding locale_value text_eq
  locale_value-locale = refl

  pub locale_value-model :
      locale_value l (codes "X11Model")
      ≡ unless_path l.path
          (codes "x11modelerror")
          (unless_parse l.path (codes "x11modelparseerror") (ok (text (codes "ok"))))
  unfolding locale_value text_eq
  locale_value-model = refl

  pub locale_value-options :
      locale_value l (codes "X11Options")
      ≡ unless_path l.path
          (codes "x11optionserror")
          (unless_parse l.path (codes "x11optionsparseerror") (ok (text (codes "ok"))))
  unfolding locale_value text_eq
  locale_value-options = refl

  pub locale_value-layout :
      locale_value l (codes "X11Layout")
      ≡ unless_path l.path (codes "x11layouterror") (ok (text (codes "de")))
  unfolding locale_value text_eq
  locale_value-layout = refl

  pub locale_value-variant :
      locale_value l (codes "X11Variant")
      ≡ unless_path l.path (codes "x11varianterror") (ok (text (codes "workman")))
  unfolding locale_value text_eq
  locale_value-variant = refl

pub find_locale-german : find_locale (codes "\"LANG=de_DE.UTF-8\"") ≡ some (codes "de_DE.UTF-8")
unfolding find_locale find_group has_prefix is_empty drop_prefix is_locale_char
find_locale-german = refl

pub find_locale-xhosa : find_locale (codes "\"LANG=xh_ZA.UTF-8\"") ≡ some (codes "xh_ZA.UTF-8")
unfolding find_locale find_group has_prefix is_empty drop_prefix is_locale_char
find_locale-xhosa = refl

pub find_language-german : find_language (codes "\"LANG=de_DE.UTF-8\"") ≡ some (codes "de")
unfolding find_language find_group has_prefix is_empty drop_prefix is_lower
find_language-german = refl

pub find_language-xhosa : find_language (codes "\"LANG=xh_ZA.UTF-8\"") ≡ some (codes "xh")
unfolding find_language find_group has_prefix is_empty drop_prefix is_lower
find_language-xhosa = refl

-- ===== src/Tests/Localed.antt =====
-- The Locale and the Keyboard services over the mock of localed, at a concrete system.
use ubuntu_installer_latest.Base.{
  String, Text, codes, text_eq, str_eq, is_empty, ◌≡◌, refl, List, [], ◌∷◌, ◌++◌, if◌then◌else◌,
  some, true, is_ok, none, Err, Result, ok, err, Run, Variant, text, bool, message, replies,
}
use ubuntu_installer_latest.System.{Bus}
use ubuntu_installer_latest.Base.Scanner.{File, scan}
use ubuntu_installer_latest.System.{dbus_locale_prefix}
use ubuntu_installer_latest.Locale
use ubuntu_installer_latest.Locale.{get_locale}
use ubuntu_installer_latest.Keyboard.Service as Keyboard
use ubuntu_installer_latest.Keyboard.Service.{ValueSettings}
use ubuntu_installer_latest.Keyboard.Layouts.{Values, get_keyboard_layouts, parse_lines, at_end}
use ubuntu_installer_latest.Keyboard.Current.{
  KeyboardSettings, set_keyboard, get_keyboard, x11_layout, x11_model, x11_options,
}
use ubuntu_installer_latest.Testutils.LocaleMock.{LocaleBus, mock_get_locale, mock_set_x11_keyboard}
use ubuntu_installer_latest.Testutils.LocaleMock.Values.{mocked_settings, settings_of}
use ubuntu_installer_latest.Testutils.LocaleMock.Laws.{ServesLocale, locale-keyboard-mock}

-- The mock of localed whose locale has a file of layouts.
abbrev german : LocaleBus
german = record { path = codes "jsonlexists" }

abbrev quoted : Variant → Text
quoted (text t) = codes "\"" ++ (t ++ codes "\"")
quoted _ = []

abbrev get_localed : String → Run (Unit {0}) Err Variant
get_localed p =
    if str_eq p Locale.locale_property
    then mock_get_locale german (codes dbus_locale_prefix) (codes "Locale")
    else if str_eq p x11_model
    then mock_get_locale german (codes dbus_locale_prefix) (codes "X11Model")
    else if str_eq p x11_options
    then mock_get_locale german (codes dbus_locale_prefix) (codes "X11Options")
    else if str_eq p x11_layout
    then mock_get_locale german (codes dbus_locale_prefix) (codes "X11Layout")
    else mock_get_locale german (codes dbus_locale_prefix) (codes "X11Variant")

abbrev call_localed : List Variant → Run (Unit {0}) Err (List Variant)
call_localed (text l ∷ text m ∷ text v ∷ text o ∷ bool a ∷ bool b ∷ []) w =
    replies (λ _. []) (mock_set_x11_keyboard german l m v o a b w)
call_localed _ w = (err (message "no such method"), w)

abbrev localed_bus : Bus (Unit {0})
localed_bus = record {
  call = λ o m args w. call_localed args w;
  get_property = λ o p w. get_localed p w;
  store_object_path = λ vs. err (message "no path");
  store_texts = λ vs. ok [];
  variant_string = quoted;
}

localed_served : ServesLocale localed_bus Locale.default_service Keyboard.default_service german
localed_served = record {
  serves_locale = λ w. refl;
  serves_language = λ w. refl;
  serves_model = λ w. refl;
  serves_options = λ w. refl;
  serves_layout = λ w. refl;
  serves_variant = λ w. refl;
  serves_set = λ l m v o a b w. refl;
  prints = λ t. refl;
}

abbrev no_settings : ValueSettings (Unit {0}) Text
no_settings = record {
  is_writable = λ schema key w. (true, w);
  set_value = λ schema key v w. (true, w);
  variant_parse = λ type t. ok t;
}

abbrev french : KeyboardSettings
french = record { layout = codes "fr"; variant = codes "oss" }

-- There is a file for every language, with no layouts.
abbrev no_layouts : Text → Result Err File
no_layouts path = ok (record { content = []; read_error = none })

abbrev no_values : Text → Result Err Values
no_values t = err (message "no value")

locale-keyboard-mock_example :
    (get_locale localed_bus Locale.default_service (some tt) tt ≡ (ok (codes "de_DE.UTF-8"), tt))
    × (is_ok
          (set_keyboard localed_bus no_settings Keyboard.default_service (some (some french)) tt).0
        ≡ true)
    × ((set_keyboard localed_bus no_settings Keyboard.default_service (some (some french)) tt).1
        ≡ tt)
    × (settings_of
          (get_keyboard localed_bus no_settings Keyboard.default_service no_layouts no_values
            (some tt)
            tt).0
        ≡ some mocked_settings)
unfolding text_eq is_empty get_keyboard_layouts parse_lines scan at_end
locale-keyboard-mock_example =
    locale-keyboard-mock localed_bus no_settings Locale.default_service Keyboard.default_service
      german localed_served no_layouts no_values french tt

-- ===== src/Keyboard/Current/Language.antt =====
-- Which file of layouts `GetKeyboard` reads.
use ubuntu_installer_latest.Base.{
  Text, codes, true, ◌≡◌, some, List, ◌++◌, arith, Err, Result, ok, Variant, is_ok, is_ok_value,
}
use ubuntu_installer_latest.Base.Scanner.{File, scan}
use ubuntu_installer_latest.System.{Bus}
use ubuntu_installer_latest.Keyboard.Service.{Service, ValueSettings}
use ubuntu_installer_latest.Keyboard.Layouts.{
  Values, KeyboardLayout, parse_lines, get_keyboard_layouts,
}
use ubuntu_installer_latest.Keyboard.Current.{
  KeyboardSetup, x11_layout, x11_variant, locale_property, language_of, file_of_language, if_opened,
  on_language, get_keyboard,
}

module _ {W V : Type 0} (bus : Bus W) (settings : ValueSettings W V) (s : Service)
    (embedded : Text → Result Err File) (unmarshal : Text → Result Err Values) (w : W) where
  abbrev at_locale : W
  at_locale = (bus.get_property s.locale x11_variant (bus.get_property s.locale x11_layout w).1).1

  abbrev reported : Result Err Variant × W
  reported = bus.get_property s.locale locale_property at_locale

  has_language :
      is_ok (get_keyboard bus settings s embedded unmarshal (some tt) w).0 ≡ true
      → is_ok (language_of bus settings s reported.0 reported.1).0 ≡ true
  unfolding get_keyboard
  has_language h = ground (arith, h)

  language_keeps : (r : Result Err Variant) (v : W) → (language_of bus settings s r v).1 ≡ v
  unfolding language_of on_language
  language_keeps r v = ground arith

  abbrev layouts_of : Text → Result Err (List KeyboardLayout) × W
  layouts_of lang =
      get_keyboard_layouts unmarshal embedded s.keyboardl18n_path
        (if_opened bus settings s lang (embedded (file_of_language bus settings s lang))) reported.1

  reads_layouts :
      (lang : Text) (setup : KeyboardSetup)
      → (get_keyboard bus settings s embedded unmarshal (some tt) w).0 ≡ ok setup
      → (language_of bus settings s reported.0 reported.1).0 ≡ ok lang
      → (layouts_of lang).0 ≡ ok setup.layouts
  unfolding get_keyboard
  reads_layouts lang setup h l = ground (arith, h, l, language_keeps reported.0 reported.1)

  opens_file :
      (current : Text) (layouts : List KeyboardLayout) (v : W)
      → (get_keyboard_layouts unmarshal embedded s.keyboardl18n_path current v).0 ≡ ok layouts
      → (f : File) × (embedded (s.keyboardl18n_path ++ current ++ codes ".jsonl") ≡ ok f)
        × ((parse_lines unmarshal (scan f).tokens (scan f).error v).0 ≡ ok layouts)
  unfolding get_keyboard_layouts
  opens_file current layouts v h =
      let path = s.keyboardl18n_path ++ current ++ codes ".jsonl" in
      let (f, e) = is_ok_value (embedded path) (ground (arith, h)) in (f, e, ground (arith, h, e))

  -- The layouts of an answer are those of the file of a language: that of the reported locale.
  abbrev pub IsLocal : KeyboardSetup → Type 0
  IsLocal setup =
      (lang : Text) × (f : File) × ((language_of bus settings s reported.0 reported.1).0 ≡ ok lang)
      × (embedded (
            s.keyboardl18n_path
            ++ if_opened bus settings s lang (embedded (file_of_language bus settings s lang))
            ++ codes ".jsonl")
          ≡ ok f)
      × ((parse_lines unmarshal (scan f).tokens (scan f).error reported.1).0 ≡ ok setup.layouts)

  pub get_keyboard-IsLocal :
      (setup : KeyboardSetup)
      → (get_keyboard bus settings s embedded unmarshal (some tt) w).0 ≡ ok setup
      → IsLocal setup
  get_keyboard-IsLocal setup h =
      let (lang, l) =
        is_ok_value (language_of bus settings s reported.0 reported.1).0
          (has_language (ground (arith, h))) in
      let (f, e, p) = opens_file _ setup.layouts reported.1 (reads_layouts lang setup h l) in
      (lang, f, l, e, p)

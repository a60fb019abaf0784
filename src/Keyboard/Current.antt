-- ===== src/Keyboard/Current.antt =====
-- `SetInputSource`, `GetKeyboard` and `SetKeyboard` of keyboard.go.
pub mod Language
use ubuntu_installer_latest.Base.{
  ℕ, Text, codes, is_empty, leb, Bool, true, false, ◌&&◌, Option, none, some, String, List, [], ◌∷◌,
  ◌++◌, if◌then◌else◌,
}
use ubuntu_installer_latest.Base.{
  Err, Result, ok, err, panic, Run, Empty, Variant, text, bool, invalid_argument, internal,
  status_message, or_status, refuse_if, as_text, catch, pure, throw, lift, ◌>>=◌, ◌>>◌,
}
use ubuntu_installer_latest.Base.Scanner.{File}
use ubuntu_installer_latest.Base.Regexp.{find_group}
use ubuntu_installer_latest.System.{Bus, member, dbus_locale_prefix}
use ubuntu_installer_latest.Keyboard.Service.{Service, ValueSettings}
use ubuntu_installer_latest.Keyboard.Layouts.{Values, KeyboardLayout, get_keyboard_layouts}

pub record KeyboardSettings : Type 0 where
  pub layout : Text
  pub variant : Text

pub record KeyboardSetup : Type 0 where
  pub settings : KeyboardSettings
  pub layouts : List KeyboardLayout

abbrev pub x11_layout : String
x11_layout = member dbus_locale_prefix ".X11Layout"

abbrev pub x11_variant : String
x11_variant = member dbus_locale_prefix ".X11Variant"

abbrev pub x11_model : String
x11_model = member dbus_locale_prefix ".X11Model"

abbrev pub x11_options : String
x11_options = member dbus_locale_prefix ".X11Options"

abbrev pub locale_property : String
locale_property = member dbus_locale_prefix ".Locale"

abbrev pub set_x11_keyboard : String
set_x11_keyboard = member dbus_locale_prefix ".SetX11Keyboard"

-- The name of the layout and its variant, joined by a plus sign.
unfoldable pub xkb_string : KeyboardSettings → Text
xkb_string k = if is_empty k.variant then k.layout else k.layout ++ codes "+" ++ k.variant

-- The text of a list with one input source.
unfoldable pub source_text : Text → Text
source_text xkb = codes "[('xkb', '" ++ xkb ++ codes "')]"

-- `[a-z]`.
unfoldable pub is_lower : ℕ → Bool
is_lower c = leb b'a' c && leb c b'z'

-- The submatch of `localRegexp`, `LANG=([a-z]+)_`.
unfoldable pub find_language : Text → Option Text
find_language s = find_group is_lower (codes "_") s

abbrev pub default_language : Text
default_language = codes "C"

module _ {W V : Type 0} (bus : Bus W) (settings : ValueSettings W V) (s : Service) where
  abbrev pub written : Bool × W → Result Err Unit × W
  written (true, w) = (ok tt, w)
  written (false, w) = (err (status_message internal "failed to set input source"), w)

  unfoldable pub write_sources : V → Run W Err Unit
  write_sources sources w = written (settings.set_value s.gsettings "sources" sources w)

  -- The request is its field `settings`; each of the two may be nil.
  unfoldable pub set_input_source : Option (Option KeyboardSettings) → Run W Err Unit
  set_input_source none = throw (status_message invalid_argument "received a nil request")
  set_input_source (some none) = throw (status_message invalid_argument "received a nil settings")
  set_input_source (some (some k)) = do
    refuse_if (is_empty k.layout) (status_message invalid_argument "received an empty layout")
    sources ←
        or_status internal "failed to parse input source into GVariant: %v"
          (lift (settings.variant_parse "a(ss)" (source_text (xkb_string k))))
    write_sources sources

  unfoldable pub set_keyboard : Option (Option KeyboardSettings) → Run W Err Unit
  set_keyboard none = throw (status_message invalid_argument "received a nil request")
  set_keyboard (some none) = throw (status_message invalid_argument "received a nil settings")
  set_keyboard (some (some k)) = do
    refuse_if (is_empty k.layout) (status_message invalid_argument "received a nil layout")
    model ← or_status internal "failed to get X11Model: %v" (bus.get_property s.locale x11_model)
    options ←
        or_status internal "failed to get X11Options: %v" (bus.get_property s.locale x11_options)
    model_str ← as_text (status_message internal "failed to get X11Model: %v") model
    options_str ← as_text (status_message internal "failed to get X11Options: %v") options
    or_status internal "failed to set X11 keyboard: %v" (
        bus.call s.locale set_x11_keyboard (
          text k.layout
          ∷ text model_str
          ∷ text k.variant
          ∷ text options_str
          ∷ bool false
          ∷ bool false
          ∷ []))
    pure tt

  unfoldable pub on_language : Option Text → Run W Err Text
  on_language none = throw (status_message internal "unexpected locale format")
  on_language (some lang) = pure lang

  -- The language of the locale, if the property can be read.
  unfoldable pub language_of : Result Err Variant → Run W Err Text
  language_of (ok l) = on_language (find_language (bus.variant_string l))
  language_of (err e) = pure default_language
  language_of panic = lift panic

  unfoldable pub file_of_language : Text → Text
  file_of_language lang = codes "kbds/" ++ lang ++ codes ".jsonl"

  unfoldable pub if_opened : Text → Result Err File → Text
  if_opened lang (ok f) = lang
  if_opened lang _ = default_language

  module _ (embedded : Text → Result Err File) (unmarshal : Text → Result Err Values) where
    -- The cause that a failure to parse prints, nil or the error of the opening, is left out.
    unfoldable pub get_keyboard : Option Empty → Run W Err KeyboardSetup
    get_keyboard none = throw (status_message invalid_argument "received a nil request")
    get_keyboard (some _) = do
      layout_property ←
          or_status internal "failed to get X11Layout: %v" (bus.get_property s.locale x11_layout)
      variant_property ←
          or_status internal "failed to get X11Variant: %v" (bus.get_property s.locale x11_variant)
      l ← catch (bus.get_property s.locale locale_property)
      lang ← language_of l
      let current = if_opened lang (embedded (file_of_language lang))
      layout ← as_text (status_message internal "failed to parse X11Layout: %v") layout_property
      variant ← as_text (status_message internal "failed to parse X11Variant: %v") variant_property
      layouts ←
          or_status internal "failed to get keyboard layouts: %v"
            (get_keyboard_layouts unmarshal embedded s.keyboardl18n_path current)
      pure (record { settings = record { layout = layout; variant = variant }; layouts = layouts })

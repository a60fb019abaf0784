-- ===== src/Tests/Keyboards.antt =====
-- Keyboards on a localed that keeps four texts, and the manager over such a system.
use ubuntu_installer_latest.Base.{
  Text, codes, str_eq, is_empty, if◌then◌else◌, true, ◌≡◌, refl, none, some, List, [], ◌∷◌, String,
  Err, Variant, text, Result, ok, err, message,
}
use ubuntu_installer_latest.Base.Strings.{trim_space, is_space, has_prefix}
use ubuntu_installer_latest.Base.Regexp.{
  find_group, drop_prefix, after_run, match_front, match_group, or_later, run,
}
use ubuntu_installer_latest.Base.Scanner.{File, scan}
use ubuntu_installer_latest.System.{Bus}
use ubuntu_installer_latest.Keyboard.Service.{ValueSettings, default_service}
use ubuntu_installer_latest.Keyboard.Layouts.{
  Values, KeyboardLayout, parse_lines, get_keyboard_layouts, parse_line, at_end, parse_layout,
  parse_variant, parse_variants, as_array, as_string, at_index,
}
use ubuntu_installer_latest.Keyboard.Current.Language.{IsLocal}
use ubuntu_installer_latest.Keyboard.Current.{
  KeyboardSettings, set_keyboard, get_keyboard, set_input_source, x11_layout, x11_variant,
  x11_model, language_of, on_language, find_language, is_lower, if_opened, file_of_language,
  KeyboardSetup,
}
use ubuntu_installer_latest.Keyboard.Laws.{
  ends, blank, line, layout_values, parse_lines-Encodes, X11Laws, set_input_source-injects,
  two_layouts, sources_text, get_keyboard-set_keyboard,
}

record Localed : Type 0 where
  layout : Text
  variant : Text
  model : Text
  options : Text

abbrev set_in : List Variant → Localed → Result Err (List Variant) × Localed
set_in (text l ∷ text m ∷ text v ∷ text o ∷ _) w =
    (ok [], record { layout = l; variant = v; model = m; options = o })
set_in _ w = (err (message "no arguments"), w)

abbrev read_in : String → Localed → Text
read_in p w =
    if str_eq p x11_layout
    then w.layout
    else if str_eq p x11_variant
    then w.variant
    else if str_eq p x11_model
    then w.model
    else w.options

abbrev localed : Bus Localed
localed = record {
  call = λ o m args w. set_in args w;
  get_property = λ o p w. (ok (text (read_in p w)), w);
  store_object_path = λ vs. err (message "no path");
  store_texts = λ vs. ok [];
  variant_string = λ v. codes "LANG=a_B";
}

-- The input sources are kept in the model.
abbrev sources : ValueSettings Localed Text
sources = record {
  is_writable = λ schema key w. (true, w);
  set_value = λ schema key v w. (true, record w { model = v });
  variant_parse = λ type t. ok t;
}

abbrev current : Localed
current = record { layout = codes "l"; variant = codes "v"; model = codes "m"; options = codes "o" }

x11_laws : X11Laws localed sources default_service
x11_laws = record {
  layout = λ w. w.layout;
  variant = λ w. w.variant;
  model = λ w. w.model;
  options = λ w. w.options;
  get_layout = λ w. refl;
  get_variant = λ w. refl;
  get_model = λ w. refl;
  get_options = λ w. refl;
  set_x11 = λ l m v o w h. (refl, refl, refl, refl);
}

abbrev french : KeyboardSettings
french = record { layout = codes "fr"; variant = codes "oss" }

set_input_source-injects_example :
    set_input_source localed sources default_service
      (some (some (two_layouts (codes "a") (codes "b"))))
      current
    ≡ (ok tt, record current { model = sources_text (codes "a") (codes "b" ∷ []) })
set_input_source-injects_example =
    set_input_source-injects localed sources default_service (codes "a") (codes "b")
      (sources_text (codes "a") (codes "b" ∷ [])) current
      (record current { model = sources_text (codes "a") (codes "b" ∷ []) }) refl refl

abbrev us : KeyboardLayout
us = record {
  code = codes "us";
  name = codes "U";
  variants = record { code = codes "i"; name = codes "I" } ∷ [];
}

-- Every line stands for the same layout.
abbrev same_layout : Text → Result Err Values
same_layout t = ok (layout_values us)

parse_lines-Encodes_example :
    parse_lines same_layout (codes "[]" ∷ codes " " ∷ []) none current ≡ (ok (us ∷ []), current)
unfolding trim_space is_space is_empty
parse_lines-Encodes_example =
    parse_lines-Encodes same_layout current
      (line (codes "[]") us refl refl (blank (codes " ") refl ends))

abbrev one_line : File
one_line = record { content = codes "[]"; read_error = none }

abbrev setup : KeyboardSetup
setup = record { settings = french; layouts = us ∷ [] }

get_keyboard-set_keyboard_example :
    let v = (set_keyboard localed sources default_service (some (some french)) current).1 in
    (setup.settings ≡ french)
    × (v.model ≡ codes "m")
    × (v.options ≡ codes "o")
    × IsLocal localed sources default_service (λ path. ok one_line) same_layout v setup
unfolding set_keyboard get_keyboard x11_laws language_of on_language find_language find_group
    has_prefix is_empty drop_prefix is_lower get_keyboard_layouts parse_lines scan trim_space
    is_space parse_line parse_layout at_index as_string as_array after_run match_front match_group
    or_later run if_opened file_of_language at_end parse_variant parse_variants
get_keyboard-set_keyboard_example =
    get_keyboard-set_keyboard localed sources default_service x11_laws (λ path. ok one_line)
      same_layout french current setup refl refl

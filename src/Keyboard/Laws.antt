-- ===== src/Keyboard/Laws.antt =====
-- What the Keyboard service reads, and what it writes.
use ubuntu_installer_latest.Base.{
  Text, codes, is_empty, true, false, ◌≡◌, refl, none, some, List, [], ◌∷◌, ◌++◌, arith,
}
use ubuntu_installer_latest.Base.{Err, Result, ok, text, bool, is_ok}
use ubuntu_installer_latest.Base.Strings.{trim_space}
use ubuntu_installer_latest.Base.Scanner.{File}
use ubuntu_installer_latest.System.{Bus}
use ubuntu_installer_latest.Keyboard.Service.{Service, ValueSettings}
use ubuntu_installer_latest.Keyboard.Layouts.{
  Json, string, array, Values, nil, cons, KeyboardVariant, KeyboardLayout, at_index, as_string,
  as_array, parse_variant, parse_variants, parse_layout, parse_line, at_end, parse_lines,
}
use ubuntu_installer_latest.Keyboard.Current.Language.{IsLocal, get_keyboard-IsLocal}
use ubuntu_installer_latest.Keyboard.Current.{
  KeyboardSettings, KeyboardSetup, x11_layout, x11_variant, x11_model, x11_options,
  set_x11_keyboard, xkb_string, source_text, set_keyboard, get_keyboard, set_input_source,
  write_sources,
}

-- The JSON value that stands for a layout: its code, its name and its variants, each a pair.
abbrev pub variant_values : KeyboardVariant → Json
variant_values v = array (cons (string v.code) (cons (string v.name) nil))

abbrev pub variants_values : List KeyboardVariant → Values
variants_values [] = nil
variants_values (v ∷ vs) = cons (variant_values v) (variants_values vs)

abbrev pub layout_values : KeyboardLayout → Values
layout_values l =
    cons (string l.code) (cons (string l.name) (cons (array (variants_values l.variants)) nil))

-- The lines stand for the layouts: each line that is not blank for one.
pub data Encodes (unmarshal : Text → Result Err Values)
    : List Text → List KeyboardLayout → Type 0 where
  ends : Encodes unmarshal [] []
  blank :
      {rest : List Text} {ls : List KeyboardLayout} (raw : Text)
      → is_empty (trim_space raw) ≡ true
      → Encodes unmarshal rest ls
      → Encodes unmarshal (raw ∷ rest) ls
  line :
      {rest : List Text} {ls : List KeyboardLayout} (raw : Text) (l : KeyboardLayout)
      → is_empty (trim_space raw) ≡ false
      → unmarshal (trim_space raw) ≡ ok (layout_values l)
      → Encodes unmarshal rest ls
      → Encodes unmarshal (raw ∷ rest) (l ∷ ls)

module _ {W : Type 0} where
  parse_variants-values :
      (vs : List KeyboardVariant) (w : W) → parse_variants (variants_values vs) w ≡ (ok vs, w)
  unfolding parse_variants parse_variant as_array at_index as_string
  parse_variants-values [] w = refl
  parse_variants-values (v ∷ vs) w = rw (parse_variants-values vs w)

  parse_layout-values : (l : KeyboardLayout) (w : W) → parse_layout (layout_values l) w ≡ (ok l, w)
  unfolding parse_layout as_array at_index as_string
  parse_layout-values l w = rw (parse_variants-values l.variants w)

  -- The layouts that the lines of a file stand for are read back from them, in their order; blank
  -- lines are skipped.
  pub parse_lines-Encodes :
      (unmarshal : Text → Result Err Values) {lines : List Text} {ls : List KeyboardLayout} (w : W)
      → Encodes unmarshal lines ls
      → parse_lines unmarshal lines none w ≡ (ok ls, w)
  unfolding parse_lines parse_line at_end
  parse_lines-Encodes unmarshal w ends = refl
  parse_lines-Encodes unmarshal w (blank raw b rest) = rw b (parse_lines-Encodes unmarshal w rest)
  parse_lines-Encodes unmarshal w (line raw l b u rest) =
      rw (b, u, parse_layout-values l w) (rw (parse_lines-Encodes unmarshal w rest))

-- The text of a list of input sources.
abbrev pub separator : Text
separator = codes "'), ('xkb', '"

abbrev pub joined_sources : Text → List Text → Text
joined_sources a [] = a
joined_sources a (b ∷ rest) = a ++ (separator ++ joined_sources b rest)

abbrev pub sources_text : Text → List Text → Text
sources_text a rest = codes "[('xkb', '" ++ (joined_sources a rest ++ codes "')]")

-- The request whose layout holds the text between two sources.
abbrev pub two_layouts : Text → Text → KeyboardSettings
two_layouts a b = record { layout = a ++ (separator ++ b); variant = [] }

two_layouts-nonempty : (a b : Text) → is_empty (a ++ (separator ++ b)) ≡ false
unfolding is_empty
two_layouts-nonempty [] b = refl
two_layouts-nonempty (c ∷ a) b = refl

two_layouts-sources :
    (a b : Text) → source_text (xkb_string (two_layouts a b)) ≡ sources_text a (b ∷ [])
unfolding source_text xkb_string is_empty
two_layouts-sources a b = refl

module _ {W V : Type 0} (bus : Bus W) (settings : ValueSettings W V) (s : Service) where
  -- The layout of a request is not quoted: a request for one layout that holds the text between two
  -- sources, whose text parses and is written, is taken and sets the input sources to what the text
  -- of a list of two sources stands for.
  pub set_input_source-injects :
      (a b : Text) (sources : V) (w v : W)
      → settings.variant_parse "a(ss)" (sources_text a (b ∷ [])) ≡ ok sources
      → settings.set_value s.gsettings "sources" sources w ≡ (true, v)
      → set_input_source bus settings s (some (some (two_layouts a b))) w ≡ (ok tt, v)
  unfolding set_input_source write_sources
  set_input_source-injects a b sources w v p q =
      rw (two_layouts-nonempty a b, two_layouts-sources a b, p, q)

  -- The X11 keyboard of localed: its four parts can be read, and are what SetX11Keyboard was called
  -- with.
  pub record X11Laws : Type 0 where
    pub layout : W → Text
    pub variant : W → Text
    pub model : W → Text
    pub options : W → Text
    pub get_layout : (w : W) → bus.get_property s.locale x11_layout w ≡ (ok (text (layout w)), w)
    pub get_variant : (w : W) → bus.get_property s.locale x11_variant w ≡ (ok (text (variant w)), w)
    pub get_model : (w : W) → bus.get_property s.locale x11_model w ≡ (ok (text (model w)), w)
    pub get_options : (w : W) → bus.get_property s.locale x11_options w ≡ (ok (text (options w)), w)
    pub set_x11 :
        (l m v o : Text) (w : W)
        → let r =
            bus.call s.locale set_x11_keyboard
              (text l ∷ text m ∷ text v ∷ text o ∷ bool false ∷ bool false ∷ [])
              w in
          is_ok r.0 ≡ true
          → (layout r.1 ≡ l) × (model r.1 ≡ m) × (variant r.1 ≡ v) × (options r.1 ≡ o)

  set_keyboard-x11 :
      (laws : X11Laws) (k : KeyboardSettings) (w : W)
      → (set_keyboard bus settings s (some (some k)) w).0 ≡ ok tt
      → let v = (set_keyboard bus settings s (some (some k)) w).1 in
        (laws.layout v ≡ k.layout)
        × (laws.variant v ≡ k.variant)
        × (laws.model v ≡ laws.model w)
        × (laws.options v ≡ laws.options w)
  unfolding set_keyboard
  set_keyboard-x11 laws k w h =
      let x = laws.set_x11 k.layout (laws.model w) k.variant (laws.options w) w in
      (
        ground (arith, laws.get_model w, laws.get_options w, x),
        ground (arith, laws.get_model w, laws.get_options w, x),
        ground (arith, laws.get_model w, laws.get_options w, x),
        ground (arith, laws.get_model w, laws.get_options w, x),
      )

  get_keyboard-x11 :
      (laws : X11Laws) (embedded : Text → Result Err File) (unmarshal : Text → Result Err Values)
      (w : W) (setup : KeyboardSetup)
      → (get_keyboard bus settings s embedded unmarshal (some tt) w).0 ≡ ok setup
      → (setup.settings.layout ≡ laws.layout w)
        × (setup.settings.variant ≡ laws.variant w)
        × IsLocal bus settings s embedded unmarshal w setup
  unfolding get_keyboard
  get_keyboard-x11 laws embedded unmarshal w setup h = (
    ground (arith, laws.get_layout w, laws.get_variant w),
    ground (arith, laws.get_layout w, laws.get_variant w),
    get_keyboard-IsLocal bus settings s embedded unmarshal w setup h,
  )

  -- Where localed keeps its contract, after a `SetKeyboard` that succeeds, a `GetKeyboard` that
  -- returns without an error returns the settings of the request; localed has the model and the
  -- options that it had before; and the layouts are read from the embedded file of a language: of
  -- that of the locale that is reported, or of C if the locale cannot be read or its language has no
  -- file.
  pub get_keyboard-set_keyboard :
      (laws : X11Laws) (embedded : Text → Result Err File) (unmarshal : Text → Result Err Values)
      (k : KeyboardSettings) (w : W) (setup : KeyboardSetup)
      → (set_keyboard bus settings s (some (some k)) w).0 ≡ ok tt
      → (get_keyboard bus settings s embedded unmarshal
          (some tt)
          (set_keyboard bus settings s (some (some k)) w).1).0
        ≡ ok setup
      → let v = (set_keyboard bus settings s (some (some k)) w).1 in
        (setup.settings ≡ k)
        × (laws.model v ≡ laws.model w)
        × (laws.options v ≡ laws.options w)
        × IsLocal bus settings s embedded unmarshal v setup
  get_keyboard-set_keyboard laws embedded unmarshal k w setup h g =
      let v = (set_keyboard bus settings s (some (some k)) w).1 in
      let (layout, variant, model, options) = set_keyboard-x11 laws k w h in
      let (got_layout, got_variant, local) = get_keyboard-x11 laws embedded unmarshal v setup g in
      (ground (arith, layout, variant, got_layout, got_variant), model, options, local)

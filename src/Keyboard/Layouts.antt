-- ===== src/Keyboard/Layouts.antt =====
-- `getKeyboardLayouts` of keyboard.go: the lines of an embedded file, each a JSON value.
use ubuntu_installer_latest.Base.{
  ℕ, zero, suc, Text, codes, is_empty, Option, none, some, String, List, [], ◌∷◌, ◌++◌,
  if◌then◌else◌,
}
use ubuntu_installer_latest.Base.{
  Err, Result, ok, panic, Run, message, on_err, map_err, pure, throw, lift, ◌>>=◌,
}
use ubuntu_installer_latest.Base.Strings.{trim_space}
use ubuntu_installer_latest.Base.Scanner.{File, scan}

-- A value of encoding/json, seen by the type assertions of the code.
mutual
  pub data Json : Type 0 where
    string : Text → Json
    array : Values → Json
    other_value : Json

  pub data Values : Type 0 where
    nil : Values
    cons : Json → Values → Values

pub record KeyboardVariant : Type 0 where
  pub code : Text
  pub name : Text

pub record KeyboardLayout : Type 0 where
  pub code : Text
  pub name : Text
  pub variants : List KeyboardVariant

-- `fmt.Errorf(format, err)`, where `err` is nil.
abbrev pub nil_err : String → Err
nil_err format = message format

module _ {W : Type 0} where
  -- `values[i]`, which panics out of range.
  unfoldable pub at_index : Values → ℕ → Run W Err Json
  at_index nil i w = (panic, w)
  at_index (cons v vs) zero w = (ok v, w)
  at_index (cons v vs) (suc i) w = at_index vs i w

  unfoldable pub as_string : Err → Json → Run W Err Text
  as_string e (string s) = pure s
  as_string e _ = throw e

  unfoldable pub as_array : Err → Json → Run W Err Values
  as_array e (array vs) = pure vs
  as_array e _ = throw e

  unfoldable pub parse_variant : Json → Run W Err KeyboardVariant
  parse_variant raw = do
    raw_variant ← as_array (nil_err "failed to parse keyboard layout variant: %v") raw
    first ← at_index raw_variant zero
    c ← as_string (nil_err "failed to parse keyboard layout variant code: %v") first
    second ← at_index raw_variant (suc zero)
    n ← as_string (nil_err "failed to parse keyboard layout variant name: %v") second
    pure (record { code = c; name = n })

  -- The loop over the variants of a layout.
  unfoldable pub parse_variants : Values → Run W Err (List KeyboardVariant)
  parse_variants nil = pure []
  parse_variants (cons raw rest) = do v ← parse_variant raw; vs ← parse_variants rest; pure (v ∷ vs)

  unfoldable pub parse_layout : Values → Run W Err KeyboardLayout
  parse_layout raw_layout = do
    first ← at_index raw_layout zero
    c ← as_string (nil_err "failed to parse keyboard layout code: %v") first
    second ← at_index raw_layout (suc zero)
    n ← as_string (nil_err "failed to parse keyboard layout name: %v") second
    third ← at_index raw_layout (suc (suc zero))
    raw_variants ← as_array (nil_err "failed to parse keyboard layout variant: %v") third
    variants ← parse_variants raw_variants
    pure (record { code = c; name = n; variants = variants })

  -- `unmarshal` is `json.Unmarshal` into a slice of any values.
  module _ (unmarshal : Text → Result Err Values) where
    unfoldable pub parse_line : Text → Run W Err KeyboardLayout
    parse_line line = do
      raw_layout ←
          map_err (on_err "failed to unmarshal keyboard layout: %v") (lift (unmarshal line))
      parse_layout raw_layout

    unfoldable pub at_end : Option Err → Run W Err (List KeyboardLayout)
    at_end none = pure []
    at_end (some e) = throw (on_err "error while scanning jsonl file: %v" e)

    -- The loop over the lines; a blank line is skipped.
    unfoldable pub parse_lines : List Text → Option Err → Run W Err (List KeyboardLayout)
    parse_lines [] e w = at_end e w
    parse_lines (raw ∷ rest) e w =
        let more = parse_lines rest e in
        if is_empty (trim_space raw)
        then more w
        else (do l ← parse_line (trim_space raw); ls ← more; pure (l ∷ ls)) w

    -- `embedded` is `EmbeddedFiles.Open`.
    unfoldable pub get_keyboard_layouts :
        (Text → Result Err File) → Text → Text → Run W Err (List KeyboardLayout)
    get_keyboard_layouts embedded path current = do
      f ←
          map_err (on_err "failed to read keyboard layouts: %v")
            (lift (embedded (path ++ current ++ codes ".jsonl")))
      parse_lines (scan f).tokens (scan f).error

-- ===== src/User/Validate/Reserved.antt =====
-- What the scan of passwd.master or group.master finds.
use ubuntu_installer_latest.Base.Strings.Laws.{before-append}
use ubuntu_installer_latest.Base.{
  ℕ, Text, codes, text_eq, text_eq→eq, text_eq_refl, is_empty, ◌==◌, Bool, true, false, ◌≡◌, refl,
  ap, subst, ◌∙◌, Option, none, some, List, [], ◌∷◌, ◌++◌, arith, inl, inr, ◌⊎◌, Err, ok,
  if◌then◌else◌,
}
use mathlib.Core.List.{Memᴰ}
use ubuntu_installer_latest.Base.Strings.{trim_space, has_prefix, before, has_char}
use ubuntu_installer_latest.Base.Scanner.{File, scan}
use ubuntu_installer_latest.User.Validate.{scan_lines, scan_file}

-- A line reserves a name: it is no comment, and it is the name, a colon and more. The name has no
-- colon.
pub record Reserves (name : Text) (line : Text) : Type 0 where
  pub rest : Text
  pub split : trim_space line ≡ name ++ b':' ∷ rest
  pub no_colon : has_char b':' name ≡ false
  pub no_comment : has_prefix (trim_space line) (codes "#") ≡ false

-- The text after the first colon.
after_char : ℕ → Text → Text
after_char sep [] = []
after_char sep (c ∷ s) = let rest = after_char sep s in if c == sep then s else rest

before-after :
    (sep : ℕ) (s : Text) → has_char sep s ≡ true → s ≡ before sep s ++ sep ∷ after_char sep s
unfolding has_char before after_char
before-after sep [] h = cc
before-after sep (c ∷ s) h = ground (arith, before-after sep s)

has_char-before : (sep : ℕ) (s : Text) → has_char sep (before sep s) ≡ false
unfolding has_char before
has_char-before sep [] = refl
has_char-before sep (c ∷ s) = ground (arith, has_char-before sep s)

has_char-append : (sep : ℕ) (name rest : Text) → has_char sep (name ++ sep ∷ rest) ≡ true
unfolding has_char
has_char-append sep [] rest = ground arith
has_char-append sep (c ∷ name) rest = ground (arith, has_char-append sep name rest)

is_empty-append : (s : Text) (c : ℕ) (t : Text) → is_empty (s ++ c ∷ t) ≡ false
unfolding is_empty
is_empty-append [] c t = refl
is_empty-append (d ∷ s) c t = refl

module _ (name : Text) where
  -- What a line that reserves the name shows to the tests of the loop.
  Reserves-tests :
      (raw : Text)
      → Reserves name raw
      → (has_prefix (trim_space raw) (codes "#") ≡ false)
        × (is_empty (trim_space raw) ≡ false)
        × (has_char b':' (trim_space raw) ≡ true)
        × (text_eq (before b':' (trim_space raw)) name ≡ true)
  Reserves-tests raw r = (
    r.no_comment,
    rw r.split (is_empty-append name b':' r.rest),
    rw r.split (has_char-append b':' name r.rest),
    rw (r.split, before-append b':' name r.rest r.no_colon) (text_eq_refl name),
  )

  tests-Reserves :
      (raw : Text)
      → has_prefix (trim_space raw) (codes "#") ≡ false
      → has_char b':' (trim_space raw) ≡ true
      → text_eq (before b':' (trim_space raw)) name ≡ true
      → Reserves name raw
  tests-Reserves raw p h q =
      let line = trim_space raw in
      let e = text_eq→eq (before b':' line) name q in
      record {
        rest = after_char b':' line;
        split = before-after b':' line h ∙ ap (λ s. s ++ b':' ∷ after_char b':' line) e;
        no_colon = rw e at (has_char-before b':' line);
        no_comment = p;
      }

  -- A successful scan of a first line and more: that line decides, or the others do.
  scan_step :
      (raw : Text) (rest : List Text) (e : Option Err) (b : Bool)
      → scan_lines (raw ∷ rest) e name ≡ ok b
      → (has_prefix (trim_space raw) (codes "#") ≡ false)
          × (has_char b':' (trim_space raw) ≡ true)
          × (text_eq (before b':' (trim_space raw)) name ≡ true)
          × (b ≡ true)
        ⊎ (scan_lines rest e name ≡ ok b)
  unfolding scan_lines
  scan_step raw rest e b h = ground arith

  -- A successful scan that answers `true` has met a line that reserves the name.
  pub scan_lines-true :
      (lines : List Text) (e : Option Err)
      → scan_lines lines e name ≡ ok true
      → (line : Text) × Memᴰ line lines × Reserves name line
  unfolding scan_lines
  scan_lines-true [] none h = absurd (cc)
  scan_lines-true [] (some e) h = absurd (cc)
  scan_lines-true (raw ∷ rest) e h = elim (scan_step raw rest e true h) [
    | inl (p, q, t, _) ↦ (raw, Memᴰ.head refl, tests-Reserves raw p q t)
    | inr more ↦ let (line, m, r) = scan_lines-true rest e more in (line, Memᴰ.tail m, r)
  ]

  -- One that answers `false` has read every line, and none reserves the name.
  pub scan_lines-false :
      (lines : List Text) (e : Option Err)
      → scan_lines lines e name ≡ ok false
      → (line : Text) → Memᴰ line lines
      → Reserves name line
      → ⊥
  unfolding scan_lines
  scan_lines-false [] none h line m r = elim m [ ]
  scan_lines-false [] (some e) h line m r = elim m [ ]
  scan_lines-false (raw ∷ rest) e h line (Memᴰ.head p) r =
      ground (arith, Reserves-tests raw (subst (Reserves name) p r))
  scan_lines-false (raw ∷ rest) e h line (Memᴰ.tail m) r = elim (scan_step raw rest e false h) [
    | inl (_, _, _, t) ↦ absurd (cc)
    | inr more ↦ scan_lines-false rest e more line m r
  ]

-- The lines that the scanner yields of a file decide: `true` is answered only if one of them
-- reserves the name, and `false` only if none does.
pub scan_file-Reserves :
    (f : File) (name : Text)
    → (scan_file f name ≡ ok true → (line : Text) × Memᴰ line (scan f).tokens × Reserves name line)
      × (scan_file f name ≡ ok false
          → (line : Text) → Memᴰ line (scan f).tokens
          → Reserves name line
          → ⊥)
unfolding scan_file
scan_file-Reserves f name = (
  scan_lines-true name (scan f).tokens (scan f).error,
  scan_lines-false name (scan f).tokens (scan f).error,
)

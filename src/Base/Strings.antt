-- ===== src/Base/Strings.antt =====
-- What the Go code uses of the packages `strings` and `unicode`. A text is the list of its code
-- points.
pub mod Contains
pub mod Laws
pub mod Words
use Prim.Native.Nat.{ℕ, ◌+◌}
use mathlib.Core.Option.{Option, none, some}
use mathlib.Core.Bool.{Bool, true, false, ◌&&◌, ◌||◌}
use mathlib.Core.List.{List, [], ◌∷◌, reverse}
use package.ubuntu_installer_latest.Base.Tests.{Text, ltb, leb, ◌==◌, if◌then◌else◌, is_empty}

-- `unicode.IsSpace`: the Latin-1 spaces, and the property White_Space above them.
unfoldable pub is_space : ℕ → Bool
is_space c =
    (leb 9 c && leb c 13)
    || c == 32
    || c == 0x85
    || c == 0xa0
    || c == 0x1680
    || (leb 0x2000 c && leb c 0x200a)
    || c == 0x2028
    || c == 0x2029
    || c == 0x202f
    || c == 0x205f
    || c == 0x3000

pub trim_left : Text → Text
trim_left [] = []
trim_left (c ∷ s) = let rest = trim_left s in if is_space c then rest else c ∷ s

-- The text without the spaces at its end.
pub trim_right : Text → Text
trim_right [] = []
trim_right (c ∷ s) = let rest = trim_right s in if is_space c && is_empty rest then [] else c ∷ rest

-- `strings.TrimSpace`.
unfoldable pub trim_space : Text → Text
unfolding trim_left trim_right is_space is_empty
trim_space s = trim_right (trim_left s)

-- `strings.HasPrefix(s, prefix)`.
unfoldable pub has_prefix : Text → Text → Bool
has_prefix s [] = true
has_prefix [] (p ∷ prefix) = false
has_prefix (c ∷ s) (p ∷ prefix) = c == p && has_prefix s prefix

-- `strings.Contains(s, sub)`.
unfoldable pub contains : Text → Text → Bool
unfolding has_prefix
contains [] sub = has_prefix [] sub
contains (c ∷ s) sub = has_prefix (c ∷ s) sub || contains s sub

-- The text before the first `sep`, and whether there is one: what `strings.SplitN(s, sep, 2)` is
-- used for.
unfoldable pub before : ℕ → Text → Text
before sep [] = []
before sep (c ∷ s) = let rest = before sep s in if c == sep then [] else c ∷ rest

unfoldable pub has_char : ℕ → Text → Bool
has_char sep [] = false
has_char sep (c ∷ s) = c == sep || has_char sep s

-- `strings.Fields`: the words between the spaces.
words_from : Text → Text → List Text
words_from word [] = if is_empty word then [] else reverse word ∷ []
words_from word (c ∷ s) =
    let split = words_from [] s in
    let joined = words_from (c ∷ word) s in
    if is_space c then (if is_empty word then split else reverse word ∷ split) else joined

unfoldable pub fields : Text → List Text
unfolding words_from is_space is_empty
fields s = words_from [] s

-- The number of bytes of a code point in UTF-8, and of a text: `len(s)`.
unfoldable pub rune_len : ℕ → ℕ
rune_len c = if ltb c 0x80 then 1 else if ltb c 0x800 then 2 else if ltb c 0x10000 then 3 else 4

unfoldable pub byte_len : Text → ℕ
unfolding rune_len
byte_len [] = 0
byte_len (c ∷ s) = rune_len c + byte_len s

-- `strings.HasSuffix(s, suffix)`.
unfoldable pub has_suffix : Text → Text → Bool
unfolding has_prefix
has_suffix s suffix = has_prefix (reverse s) (reverse suffix)

-- The text before the last `sep`, and the text after it: `strings.LastIndex` and the two slices.
unfoldable pub with_last : ℕ → ℕ → Text → Option (Text × Text) → Option (Text × Text)
with_last sep c s (some (a, b)) = some (c ∷ a, b)
with_last sep c s none = if c == sep then some ([], s) else none

unfoldable pub cut_last : ℕ → Text → Option (Text × Text)
unfolding with_last
cut_last sep [] = none
cut_last sep (c ∷ s) = with_last sep c s (cut_last sep s)

-- ===== src/Base/Strings/Words.antt =====
-- The words of a text, as `strings.Fields` splits it.
use Prim.Native.Nat.{ℕ, ◌+◌, ◌≤◌}
use mathlib.Core.Path.{◌≡◌, refl}
use mathlib.Core.Bool.{Bool, true, false, not, ◌&&◌}
use mathlib.Core.List.{List, [], ◌∷◌, reverse, reverse_aux}
use native.Mathlib.Omega.{arith}
use package.ubuntu_installer_latest.Base.Tests.{Text, is_empty, if◌then◌else◌, All}
use package.ubuntu_installer_latest.Base.Strings.{
  is_space, words_from, fields, byte_len, rune_len, trim_left, trim_right, trim_space,
}

-- A text has no space.
abbrev pub no_space : Text → Bool
no_space [] = true
no_space (c ∷ s) = not (is_space c) && no_space s

-- A word of at most `n` bytes.
pub record IsWord (n : ℕ) (t : Text) : Type 0 where
  pub not_empty : is_empty t ≡ false
  pub has_no_space : no_space t ≡ true
  pub fits : byte_len t ≤ n

pub byte_len-reverse_aux : (s t : Text) → byte_len (reverse_aux s t) ≡ byte_len s + byte_len t
unfolding byte_len
byte_len-reverse_aux [] t = omega arith
byte_len-reverse_aux (c ∷ s) t = ground (arith, byte_len-reverse_aux s (c ∷ t))

no_space-reverse_aux :
    (s t : Text) → no_space s ≡ true → no_space t ≡ true → no_space (reverse_aux s t) ≡ true
no_space-reverse_aux [] t h k = k
no_space-reverse_aux (c ∷ s) t h k = no_space-reverse_aux s (c ∷ t) (ground arith) (ground arith)

is_empty-reverse_aux : (s : Text) (c : ℕ) (t : Text) → is_empty (reverse_aux s (c ∷ t)) ≡ false
unfolding is_empty
is_empty-reverse_aux [] c t = refl
is_empty-reverse_aux (d ∷ s) c t = is_empty-reverse_aux s d (c ∷ t)

-- A word that is kept backwards.
reverse-IsWord :
    (n : ℕ) (word : Text)
    → is_empty word ≡ false
    → no_space word ≡ true
    → byte_len word ≤ n
    → IsWord n (reverse word)
unfolding byte_len is_empty
reverse-IsWord n [] e h l = absurd (cc)
reverse-IsWord n (c ∷ s) e h l = record {
  not_empty = is_empty-reverse_aux s c [];
  has_no_space = no_space-reverse_aux (c ∷ s) [] h refl;
  fits = ground (arith, l, byte_len-reverse_aux (c ∷ s) []);
}

All-mono : (n m : ℕ) (ws : List Text) → n ≤ m → All (IsWord n) ws → All (IsWord m) ws
All-mono n m [] l a = tt
All-mono n m (w ∷ ws) l (a, rest) = (
  record {
    not_empty = a.not_empty;
    has_no_space = a.has_no_space;
    fits = ground (arith, a.fits, l);
  },
  All-mono n m ws l rest,
)

if_All :
    (P : Text → Type 0) (b : Bool) (x y : List Text)
    → (b ≡ true → All P x)
    → (b ≡ false → All P y)
    → All P (if b then x else y)
if_All P true x y f g = f refl
if_All P false x y f g = g refl

words_from-Words :
    (word s : Text)
    → no_space word ≡ true
    → All (IsWord (byte_len word + byte_len s)) (words_from word s)
unfolding words_from byte_len
words_from-Words word [] h =
    if_All _ (is_empty word) _ _ (λ e. tt)
      λ e. (reverse-IsWord (byte_len word + 0) word e h (ground arith), tt)
words_from-Words word (c ∷ s) h =
    let n = byte_len word + (rune_len c + byte_len s) in
    let rest =
      All-mono (byte_len [] + byte_len s) n (words_from [] s) (ground arith)
        (words_from-Words [] s refl) in
    if_All _ (is_space c) _ _
      (λ e.
        if_All _ (is_empty word) _ _ (λ k. rest)
          λ k. (reverse-IsWord n word k h (ground arith), rest))
      λ e.
        All-mono (byte_len (c ∷ word) + byte_len s) n (words_from (c ∷ word) s) (ground arith)
          (words_from-Words (c ∷ word) s (ground (arith, e)))

trim_left_fits : (s : Text) → byte_len (trim_left s) ≤ byte_len s
unfolding trim_left byte_len
trim_left_fits [] = omega arith
trim_left_fits (c ∷ s) = ground (arith, trim_left_fits s)

trim_right_fits : (s : Text) → byte_len (trim_right s) ≤ byte_len s
unfolding trim_right byte_len
trim_right_fits [] = omega arith
trim_right_fits (c ∷ s) = ground (arith, trim_right_fits s)

-- The words of a trimmed text are no longer than the text.
pub fields-Words : (s : Text) → All (IsWord (byte_len s)) (fields (trim_space s))
unfolding fields trim_space byte_len
fields-Words s =
    let t = trim_right (trim_left s) in
    All-mono (byte_len [] + byte_len t) (byte_len s) (words_from [] t)
      (ground (arith, trim_left_fits s, trim_right_fits (trim_left s))) (words_from-Words [] t refl)

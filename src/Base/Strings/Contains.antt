-- ===== src/Base/Strings/Contains.antt =====
-- What it means that one text contains another.
use mathlib.Core.Path.{◌≡◌, refl}
use mathlib.Core.Bool.{true}
use mathlib.Core.Logic.{inl, inr}
use mathlib.Core.List.{[], ◌∷◌, ◌++◌}
use native.Mathlib.Omega.{arith}
use package.ubuntu_installer_latest.Base.Tests.{Text, Bool-cases}
use package.ubuntu_installer_latest.Base.Strings.{has_prefix, contains}

-- The text `sub` stands in `s`, between two parts of it.
abbrev pub Within : Text → Text → Type 0
Within sub s = (pre : Text) × (post : Text) × (s ≡ pre ++ (sub ++ post))

prefix-split : (s sub : Text) → has_prefix s sub ≡ true → (post : Text) × (s ≡ sub ++ post)
unfolding has_prefix
prefix-split s [] h = (s, refl)
prefix-split [] (p ∷ sub) h = cc
prefix-split (c ∷ s) (p ∷ sub) h =
    let (post, q) = prefix-split s sub (ground (arith)) in (post, ground (arith, q))

split-prefix : (sub post : Text) → has_prefix (sub ++ post) sub ≡ true
unfolding has_prefix
split-prefix [] [] = refl
split-prefix [] (c ∷ post) = refl
split-prefix (p ∷ sub) post = ground (arith, split-prefix sub post)

pub contains-Within : (s sub : Text) → contains s sub ≡ true → Within sub s
unfolding contains
contains-Within [] sub h = let (post, q) = prefix-split [] sub h in ([], post, q)
contains-Within (c ∷ s) sub h = elim (Bool-cases (has_prefix (c ∷ s) sub)) [
  | inl e ↦ let (post, q) = prefix-split (c ∷ s) sub e in ([], post, q)
  | inr e ↦
      let (pre, post, q) = contains-Within s sub (ground (arith, e)) in
      (c ∷ pre, post, ground (arith, q))
]

contains-parts : (pre sub post : Text) → contains (pre ++ (sub ++ post)) sub ≡ true
unfolding contains
contains-parts [] [] [] = split-prefix [] []
contains-parts [] [] (c ∷ post) = ground (arith, split-prefix [] (c ∷ post))
contains-parts [] (p ∷ sub) post = ground (arith, split-prefix (p ∷ sub) post)
contains-parts (c ∷ pre) sub post = ground (arith, contains-parts pre sub post)

pub Within-contains : (s sub : Text) → Within sub s → contains s sub ≡ true
Within-contains s sub (pre, post, q) = rw q (contains-parts pre sub post)

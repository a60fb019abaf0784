-- ===== src/Base/Regexp.antt =====
-- The leftmost match of a regular expression of the form `LANG=(class+)suffix`, where the suffix
-- begins with a character outside the class: the form of both expressions of the program. The
-- repetition is greedy, and since the suffix begins outside the class it takes the whole run.
pub mod Laws
use Prim.Native.Nat.{ℕ}
use mathlib.Core.Path.{◌≡◌, refl, ap, sym, ◌∙◌}
use mathlib.Core.Logic.{◌≢◌}
use mathlib.Core.Bool.{Bool, true, false, ◌&&◌, not}
use mathlib.Core.Option.{Option, none, some}
use mathlib.Core.List.{List, [], ◌∷◌, ◌++◌}
use native.Mathlib.Omega.{arith}
use package.ubuntu_installer_latest.Base.Tests.{Text, codes, ◌==◌, if◌then◌else◌, is_empty, All}
use package.ubuntu_installer_latest.Base.Strings.{has_prefix}

abbrev pub lang_prefix : Text
lang_prefix = codes "LANG="

-- `strings.TrimPrefix`, where the prefix is known to be there.
unfoldable pub drop_prefix : Text → Text → Text
drop_prefix s [] = s
drop_prefix [] (p ∷ prefix) = []
drop_prefix (c ∷ s) (p ∷ prefix) = drop_prefix s prefix

module _ (in_class : ℕ → Bool) where
  -- The longest run of the class at the front, and what follows it.
  unfoldable pub run : Text → Text
  run [] = []
  run (c ∷ s) = let rest = run s in if in_class c then c ∷ rest else []

  unfoldable pub after_run : Text → Text
  after_run [] = []
  after_run (c ∷ s) = let rest = after_run s in if in_class c then rest else c ∷ s

  unfoldable pub all_in : Text → Bool
  all_in [] = true
  all_in (c ∷ s) = in_class c && all_in s

  module _ (suffix : Text) where
    -- A match at the front of the text: the group.
    unfoldable pub match_group : Text → Option Text
    match_group s =
        if not (is_empty (run s)) && has_prefix (after_run s) suffix then some (run s) else none

    unfoldable pub match_front : Text → Option Text
    unfolding match_group run after_run
    match_front s =
        if has_prefix s lang_prefix then match_group (drop_prefix s lang_prefix) else none

    unfoldable pub or_later : Option Text → Option Text → Option Text
    or_later (some r) later = some r
    or_later none later = later

    -- The group of the first match.
    unfoldable pub find_group : Text → Option Text
    unfolding match_front or_later
    find_group [] = none
    find_group (c ∷ s) = let later = find_group s in or_later (match_front (c ∷ s)) later

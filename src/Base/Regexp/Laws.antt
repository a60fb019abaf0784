-- ===== src/Base/Regexp/Laws.antt =====
-- The search for a match is right: what it finds occurs in the text, and it finds something if
-- there is something to find.
use Prim.Native.Nat.{ℕ}
use mathlib.Core.Path.{◌≡◌, refl, ap, sym, ◌∙◌}
use mathlib.Core.Logic.{◌≢◌}
use mathlib.Core.Bool.{Bool, true, false, not}
use mathlib.Core.Option.{Option, none, some}
use mathlib.Core.List.{[], ◌∷◌, ◌++◌}
use native.Mathlib.Omega.{arith}
use package.ubuntu_installer_latest.Base.Tests.{Text, ◌==◌, is_empty}
use package.ubuntu_installer_latest.Base.Strings.{has_prefix}
use package.ubuntu_installer_latest.Base.Regexp.{
  lang_prefix, drop_prefix, run, after_run, all_in, match_group, match_front, or_later, find_group,
}

not-some-none : (r : Text) → some r ≢ none
not-some-none r h = cc

has_prefix-append : (s p : Text) → has_prefix s p ≡ true → s ≡ p ++ drop_prefix s p
unfolding has_prefix drop_prefix
has_prefix-append [] [] h = refl
has_prefix-append (c ∷ s) [] h = refl
has_prefix-append [] (d ∷ p) h = cc
has_prefix-append (c ∷ s) (d ∷ p) h = ground (arith, has_prefix-append s p)

pub has_prefix_append : (p x : Text) → has_prefix (p ++ x) p ≡ true
unfolding has_prefix
has_prefix_append [] [] = refl
has_prefix_append [] (c ∷ x) = refl
has_prefix_append (d ∷ p) x = ground (arith, has_prefix_append p x)

pub drop_prefix-append : (p x : Text) → drop_prefix (p ++ x) p ≡ x
unfolding drop_prefix
drop_prefix-append [] [] = refl
drop_prefix-append [] (c ∷ x) = refl
drop_prefix-append (d ∷ p) x = drop_prefix-append p x

module _ (in_class : ℕ → Bool) where
  run-after_run : (s : Text) → s ≡ run in_class s ++ after_run in_class s
  unfolding run after_run
  run-after_run [] = refl
  run-after_run (c ∷ s) = ground (arith, run-after_run s)

  all_in-run : (s : Text) → all_in in_class (run in_class s) ≡ true
  unfolding run all_in
  all_in-run [] = refl
  all_in-run (c ∷ s) = ground (arith, all_in-run s)

  run-append :
      (r : Text) (d : ℕ) (x : Text)
      → all_in in_class r ≡ true
      → in_class d ≡ false
      → (run in_class (r ++ d ∷ x) ≡ r) × (after_run in_class (r ++ d ∷ x) ≡ d ∷ x)
  unfolding run after_run all_in
  run-append [] d x a h = ground arith
  run-append (c ∷ r) d x a h = ground (arith, run-append r d x)

  -- `LANG=`, a run of the class that is not empty, and the suffix.
  pub record Occurs (suffix r s : Text) : Type 0 where
    pub pre : Text
    pub post : Text
    pub split : s ≡ pre ++ (lang_prefix ++ (r ++ (suffix ++ post)))
    pub nonempty : is_empty r ≡ false
    pub in_run : all_in in_class r ≡ true

  module _ (suffix : Text) where
    match_group-split :
        (s r : Text)
        → match_group in_class suffix s ≡ some r
        → (is_empty r ≡ false)
          × (all_in in_class r ≡ true)
          × (s ≡ r ++ (suffix ++ drop_prefix (after_run in_class s) suffix))
    unfolding match_group
    match_group-split s r h =
        ground
          (arith, all_in-run s, run-after_run s, has_prefix-append (after_run in_class s) suffix)

    match_front-Occurs : (s r : Text) → match_front in_class suffix s ≡ some r → Occurs suffix r s
    unfolding match_front
    match_front-Occurs s r h =
        let x = drop_prefix s lang_prefix in
        let found : match_group in_class suffix x ≡ some r = ground arith in
        let (e, a, p) = match_group-split x r found in
        record {
          pre = [];
          post = drop_prefix (after_run in_class x) suffix;
          split = ground (arith, has_prefix-append s lang_prefix, p);
          nonempty = e;
          in_run = a;
        }

    -- What the search returns occurs in the text.
    pub find_group-Occurs : (s r : Text) → find_group in_class suffix s ≡ some r → Occurs suffix r s
    unfolding find_group or_later
    find_group-Occurs [] r h = absurd (cc)
    find_group-Occurs (c ∷ s) r h =
        go (find_group-Occurs s r) (match_front in_class suffix (c ∷ s)) refl
      where
        go :
            (find_group in_class suffix s ≡ some r → Occurs suffix r s)
            → (m : Option Text) → match_front in_class suffix (c ∷ s) ≡ m
            → Occurs suffix r (c ∷ s)
        go later (some q) e = match_front-Occurs (c ∷ s) r (ground (arith, e))
        go later none e =
            let o = later (ground (arith, e)) in
            record {
              pre = c ∷ o.pre;
              post = o.post;
              split = ap (λ t. c ∷ t) o.split;
              nonempty = o.nonempty;
              in_run = o.in_run;
            }

  module _ (d : ℕ) (ds : Text) (outside : in_class d ≡ false) where
    match_front-append :
        (r post : Text)
        → is_empty r ≡ false
        → all_in in_class r ≡ true
        → match_front in_class (d ∷ ds) (lang_prefix ++ (r ++ (d ∷ ds ++ post))) ≡ some r
    unfolding match_front match_group
    match_front-append r post e a =
        let x = r ++ (d ∷ ds ++ post) in
        let (p, q) = run-append r d (ds ++ post) a outside in
        rw (has_prefix_append lang_prefix x, drop_prefix-append lang_prefix x, p, q)
          (rw (e, has_prefix_append (d ∷ ds) post))

    or_later-ne-none :
        (m later : Option Text)
        → or_later in_class (d ∷ ds) m later ≡ none
        → (m ≡ none) × (later ≡ none)
    unfolding or_later
    or_later-ne-none (some q) later h = absurd (cc)
    or_later-ne-none none later h = (refl, h)

    finds :
        (pre r post : Text)
        → is_empty r ≡ false
        → all_in in_class r ≡ true
        → find_group in_class (d ∷ ds) (pre ++ (lang_prefix ++ (r ++ (d ∷ ds ++ post)))) ≢ none
    unfolding find_group
    finds [] r post e a h =
        let x = lang_prefix ++ (r ++ (d ∷ ds ++ post)) in
        let front : match_front in_class (d ∷ ds) x ≡ none = (or_later-ne-none _ _ h).0 in
        not-some-none r (sym (match_front-append r post e a) ∙ front)
    finds (c ∷ pre) r post e a h = finds pre r post e a (or_later-ne-none _ _ h).1

    -- If there is an occurrence then the search finds one.
    pub Occurs-find_group :
        (r s : Text) → Occurs (d ∷ ds) r s → find_group in_class (d ∷ ds) s ≢ none
    Occurs-find_group r s o = rw o.split (finds o.pre r o.post o.nonempty o.in_run)

    match_front_ne :
        (c : ℕ) (s : Text) → c == b'L' ≡ false → match_front in_class (d ∷ ds) (c ∷ s) ≡ none
    unfolding match_front has_prefix
    match_front_ne c s h = rw h

    -- The first occurrence is found if no `L` stands before it.
    pub find_group-append :
        (pre r post : Text)
        → all_in (λ c. not (c == b'L')) pre ≡ true
        → is_empty r ≡ false
        → all_in in_class r ≡ true
        → find_group in_class (d ∷ ds) (pre ++ (lang_prefix ++ (r ++ (d ∷ ds ++ post)))) ≡ some r
    unfolding find_group or_later all_in
    find_group-append [] r post n e a = rw (match_front-append r post e a)
    find_group-append (c ∷ pre) r post n e a =
        let x = pre ++ (lang_prefix ++ (r ++ (d ∷ ds ++ post))) in
        rw (match_front_ne c x (ground arith)) (find_group-append pre r post (ground arith) e a)

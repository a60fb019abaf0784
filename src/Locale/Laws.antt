-- ===== src/Locale/Laws.antt =====
-- What the Locale service accepts, and what it answers.
use ubuntu_installer_latest.Base.{
  ℕ, ◌≤◌, All, Text, codes, text_eq, text_eq→eq, is_empty, Bool-cases, Bool, true, false, ◌≡◌, refl,
  ap, subst, not, ◌==◌, Option, none, some, List, [], ◌∷◌, ◌++◌, ◌⊎◌, inl, inr, arith,
}
use ubuntu_installer_latest.Base.{
  Err, Result, ok, err, panic, Variant, texts, bool, is_ok, invalid_argument, status_message,
}
use mathlib.Core.List.{Memᴰ}
use ubuntu_installer_latest.Base.Strings.{trim_space, fields, byte_len}
use ubuntu_installer_latest.Base.Scanner.{File, scan}
use ubuntu_installer_latest.Base.Scanner.Laws.{scan_fits}
use ubuntu_installer_latest.Base.Strings.Words.{IsWord, fields-Words}
use ubuntu_installer_latest.Base.Regexp.{find_group, lang_prefix, all_in}
use ubuntu_installer_latest.Base.Regexp.Laws.{Occurs, find_group-Occurs, find_group-append}
use ubuntu_installer_latest.System.{Bus, Files}
use ubuntu_installer_latest.Locale.{
  Service, locale_property, set_locale_method, is_locale_char, utf8_suffix, find_locale, on_fields,
  scan_supported, is_locale_supported, on_match, get_locale, set_locale,
}

-- A line lists a locale: the locale is the first of its words, and there is another.
pub record Lists (locale line : Text) : Type 0 where
  pub second : Text
  pub rest : List Text
  pub split : fields (trim_space line) ≡ locale ∷ second ∷ rest

heads_same : (u t : Text) (us ts : List Text) → u ∷ us ≡ t ∷ ts → u ≡ t
heads_same u t us ts e = cc

first-IsWord :
    (n m : ℕ) (t : Text) (ts words : List Text)
    → words ≡ t ∷ ts
    → All (IsWord n) words
    → n ≤ m
    → IsWord m t
first-IsWord n m t ts [] e a l = absurd (cc)
first-IsWord n m t ts (u ∷ us) e (a, rest) l = subst (IsWord m) (heads_same u t us ts e) (record {
  not_empty = a.not_empty;
  has_no_space = a.has_no_space;
  fits = ground (arith, a.fits, l);
})

-- A locale that a line of at most `n` bytes lists.
Lists-IsWord :
    (locale line : Text) (n : ℕ) → Lists locale line → byte_len line ≤ n → IsWord n locale
Lists-IsWord locale line n l fits =
    first-IsWord (byte_len line) n locale _ _ l.split (fields-Words line) fits

on_fields_step :
    (locale line : Text) (more : Result Err Bool) (ws : List Text) (b : Bool)
    → on_fields locale line more ws ≡ ok b
    → ((second : Text) × (rest : List Text) × (ws ≡ locale ∷ second ∷ rest) × (b ≡ true))
      ⊎ (more ≡ ok b)
unfolding on_fields
on_fields_step locale line more (first ∷ second ∷ rest) b h =
    elim (Bool-cases (text_eq first locale)) [
      | inl e ↦
          inl (
            second,
            rest,
            ap (λ t. t ∷ second ∷ rest) (text_eq→eq first locale e),
            ground (arith, e),
          )
      | inr e ↦ inr (ground (arith, e))
    ]
on_fields_step locale line more (first ∷ []) b h = absurd (cc)
on_fields_step locale line more [] b h = absurd (cc)

scan_step :
    (locale raw : Text) (rest : List Text) (e : Option Err)
    → scan_supported locale (raw ∷ rest) e ≡ ok true
    → Lists locale raw ⊎ (scan_supported locale rest e ≡ ok true)
unfolding scan_supported
scan_step locale raw rest e h = elim (Bool-cases (is_empty (trim_space raw))) [
  | inl b ↦ inr (ground (arith, b))
  | inr b ↦
      elim (on_fields_step locale (trim_space raw) (scan_supported locale rest e)
        (fields (trim_space raw)) true (ground (arith, b))) [
          | inl (second, others, p, _) ↦ inl (record { second = second; rest = others; split = p })
          | inr more ↦ inr more
        ]
]

-- A locale that is found to be supported is listed in the file.
scan_supported-true :
    (locale : Text) (lines : List Text) (e : Option Err)
    → scan_supported locale lines e ≡ ok true
    → (line : Text) × Memᴰ line lines × Lists locale line
unfolding scan_supported
scan_supported-true locale [] none h = absurd (cc)
scan_supported-true locale [] (some e) h = absurd (cc)
scan_supported-true locale (raw ∷ rest) e h = elim (scan_step locale raw rest e h) [
  | inl l ↦ (raw, Memᴰ.head refl, l)
  | inr more ↦ let (line, m, l) = scan_supported-true locale rest e more in (line, Memᴰ.tail m, l)
]

module _ {W : Type 0} (bus : Bus W) (s : Service) (files : Files W) where
  -- Where the file of supported locales can be opened, `SetLocale` succeeds only for a locale that
  -- one of the lines which the scanner yields of the file lists; it is a word, not empty and with no
  -- space or newline, of less than 65536 bytes.
  pub set_locale-Lists :
      (locale : Text) (f : File) (w v : W)
      → files.open_file s.locale_supported_path w ≡ (ok f, v)
      → (set_locale bus s files (some locale) w).0 ≡ ok tt
      → IsWord 65535 locale × ((line : Text) × Memᴰ line (scan f).tokens × Lists locale line)
  unfolding set_locale is_locale_supported
  set_locale-Lists locale f w v o h =
      let listed = scan_supported-true locale (scan f).tokens (scan f).error (ground arith) in
      let (line, m, l) = listed in
      (Lists-IsWord locale line 65535 l (ground (arith, scan_fits f line m)), listed)

  -- A locale that is not empty is refused, and localed is not called, where the file of supported
  -- locales can be opened and its scan ends without finding the locale.
  set_locale-refuses :
      (locale : Text) (f : File) (w v : W)
      → is_empty locale ≡ false
      → files.open_file s.locale_supported_path w ≡ (ok f, v)
      → scan_supported locale (scan f).tokens (scan f).error ≡ ok false
      → set_locale bus s files (some locale) w
        ≡ (err (status_message invalid_argument "locale is not supported"), v)
  unfolding set_locale is_locale_supported
  set_locale-refuses locale f w v n o h = ground arith

  -- What `GetLocale` returns is letters and underscores followed by `.UTF-8`, and stands behind
  -- `LANG=` in the printed property.
  pub get_locale-Occurs :
      (w : W) (l : Text)
      → (get_locale bus s (some tt) w).0 ≡ ok l
      → (v : Variant) × (name : Text) × ((bus.get_property s.locale locale_property w).0 ≡ ok v)
        × (l ≡ name ++ utf8_suffix)
        × Occurs is_locale_char utf8_suffix name (bus.variant_string v)
  unfolding get_locale on_match find_locale
  get_locale-Occurs w l h = go (bus.get_property s.locale locale_property w).0 refl
    where
      by_match :
          (v : Variant) (m : Option Text)
          → (bus.get_property s.locale locale_property w).0 ≡ ok v
          → find_group is_locale_char utf8_suffix (bus.variant_string v) ≡ m
          → (x : Variant) × (name : Text) × ((bus.get_property s.locale locale_property w).0 ≡ ok x)
            × (l ≡ name ++ utf8_suffix)
            × Occurs is_locale_char utf8_suffix name (bus.variant_string x)
      by_match v (some name) p q = (
        v,
        name,
        p,
        ground (arith, p, q),
        find_group-Occurs is_locale_char utf8_suffix (bus.variant_string v) name q,
      )
      by_match v none p q = absurd (ground (arith, p, q))

      go :
          (r : Result Err Variant)
          → (bus.get_property s.locale locale_property w).0 ≡ r
          → (x : Variant) × (name : Text) × ((bus.get_property s.locale locale_property w).0 ≡ ok x)
            × (l ≡ name ++ utf8_suffix)
            × Occurs is_locale_char utf8_suffix name (bus.variant_string x)
      go (ok v) p = by_match v _ p refl
      go (err e) p = absurd (ground (arith, p))
      go panic p = absurd (ground (arith, p))

  set_locale_ends :
      (locale : Text) (w : W)
      → (set_locale bus s files (some locale) w).0 ≡ ok tt
      → let u = (is_locale_supported files locale s.locale_supported_path w).1 in
        let r = bus.call s.locale set_locale_method (texts (locale ∷ []) ∷ bool false ∷ []) u in
        (is_ok r.0 ≡ true) × ((set_locale bus s files (some locale) w).1 ≡ r.1)
  unfolding set_locale
  set_locale_ends locale w h = (ground arith, ground arith)

  get_locale_found :
      (v : Variant) (name : Text) (w : W)
      → (bus.get_property s.locale locale_property w).0 ≡ ok v
      → find_group is_locale_char utf8_suffix (bus.variant_string v) ≡ some name
      → (get_locale bus s (some tt) w).0 ≡ ok (name ++ utf8_suffix)
  unfolding get_locale on_match find_locale
  get_locale_found v name w p q = ground arith

  -- After a `SetLocale` without an error of a locale that is letters and underscores, at least one,
  -- followed by `.UTF-8`, `GetLocale` returns it. The hypothesis on localed is that after a
  -- successful call it reports the locale behind `LANG=`, with no `L` before that.
  pub get_locale-set_locale :
      (name pre post : Text) (w : W)
      → is_empty name ≡ false
      → all_in is_locale_char name ≡ true
      → all_in (λ c. not (c == b'L')) pre ≡ true
      → ((u : W)
          → let r =
              bus.call s.locale set_locale_method
                (texts ((name ++ utf8_suffix) ∷ []) ∷ bool false ∷ [])
                u in
            is_ok r.0 ≡ true
            → (v : Variant) × ((bus.get_property s.locale locale_property r.1).0 ≡ ok v)
              × (bus.variant_string v ≡ pre ++ (lang_prefix ++ (name ++ (utf8_suffix ++ post)))))
      → (set_locale bus s files (some (name ++ utf8_suffix)) w).0 ≡ ok tt
      → (get_locale bus s (some tt) (set_locale bus s files (some (name ++ utf8_suffix)) w).1).0
        ≡ ok (name ++ utf8_suffix)
  unfolding is_locale_char
  get_locale-set_locale name pre post w n a l stored h =
      let u = (is_locale_supported files (name ++ utf8_suffix) s.locale_supported_path w).1 in
      let (called, end) = set_locale_ends (name ++ utf8_suffix) w h in
      let (v, p, q) = stored u called in
      rw end (
        get_locale_found v name _ p
          (rw q (find_group-append is_locale_char b'.' (codes "UTF-8") refl pre name post l n a)))

-- ===== src/User/Validate/Verdict.antt =====
-- What a verdict of `ValidateUsername` says of the name.
use ubuntu_installer_latest.Base.{
  ℕ, ◌≤◌, ◌<◌, Text, text_eq→eq, is_empty, ltb, Bool, true, false, length, All, ◌≡◌, ◌⊎◌, inl, inr,
  refl, sym, ◌∙◌, ap, subst, Bool-cases, List, [], ◌∷◌, some, arith,
}
use ubuntu_installer_latest.Base.{Err, Result, ok, err, panic, Variant, text, dbus_error, is_ok}
use mathlib.Core.Bool.{false≢true}
use mathlib.Core.List.{Memᴰ}
use ubuntu_installer_latest.Base.Strings.{byte_len, rune_len, contains}
use ubuntu_installer_latest.Base.Scanner.{File, scan}
use ubuntu_installer_latest.System.{Bus, Files}
use ubuntu_installer_latest.User.Service.{Service}
use ubuntu_installer_latest.User.Validate.{
  UsernameValidation, valid, already_in_use, system_reserved, invalid_chars, too_long, empty,
  is_first_char, is_name_char, all_name_chars, matches_username, validate_username, check_system,
  check_reserved, scan_group, scan_file, look_up, on_found, on_body, find_user_by_name,
  error_failed, on_reserved,
}
use ubuntu_installer_latest.User.Validate.Reserved.{Reserves, scan_file-Reserves}

-- The names that useradd takes: a small letter or `_`, and then such, digits and `-`.
abbrev pub IsLower : ℕ → Type 0
IsLower c = (b'a' ≤ c) × (c ≤ b'z')

abbrev pub IsDigit : ℕ → Type 0
IsDigit c = (b'0' ≤ c) × (c ≤ b'9')

abbrev pub IsNameChar : ℕ → Type 0
IsNameChar c = IsLower c ⊎ IsDigit c ⊎ (c ≡ b'_') ⊎ (c ≡ b'-')

abbrev pub IsName : Text → Type 0
IsName [] = ⊥
IsName (c ∷ s) = (IsLower c ⊎ (c ≡ b'_')) × All IsNameChar s

all_name_chars-All :
    (s : Text) → all_name_chars s ≡ true → All IsNameChar s × (byte_len s ≡ length s)
unfolding all_name_chars is_name_char byte_len rune_len
all_name_chars-All [] h = (tt, refl)
all_name_chars-All (c ∷ s) h = ground (arith, all_name_chars-All s)

All-all_name_chars : (s : Text) → All IsNameChar s → all_name_chars s ≡ true
unfolding all_name_chars is_name_char
All-all_name_chars [] h = refl
All-all_name_chars (c ∷ s) h = ground (arith, All-all_name_chars s)

matches_username-IsName :
    (s : Text) → matches_username s ≡ true → IsName s × (byte_len s ≡ length s)
unfolding matches_username is_first_char byte_len rune_len
matches_username-IsName [] h = absurd (cc)
matches_username-IsName (c ∷ s) h = ground (arith, all_name_chars-All s)

IsName-matches_username : (s : Text) → IsName s → matches_username s ≡ true
unfolding matches_username is_first_char
IsName-matches_username [] h = absurd h
IsName-matches_username (c ∷ s) h = ground (arith, All-all_name_chars s)

-- The test for the regular expression accepts exactly the names, and the length in bytes of what it
-- accepts is the number of its characters.
matches_username_lem :
    (s : Text)
    → (matches_username s ≡ true → IsName s × (byte_len s ≡ length s))
      × (IsName s → matches_username s ≡ true)
matches_username_lem s = (matches_username-IsName s, IsName-matches_username s)

is_empty-nil : (s : Text) → is_empty s ≡ true → s ≡ []
unfolding is_empty
is_empty-nil [] h = refl
is_empty-nil (c ∷ s) h = absurd (cc)

-- One of the two files has a line that reserves the name; neither has.
abbrev pub IsReserved : File → File → Text → Type 0
IsReserved f g name =
    ((line : Text) × Memᴰ line (scan f).tokens × Reserves name line)
    ⊎ ((line : Text) × Memᴰ line (scan g).tokens × Reserves name line)

abbrev pub IsFree : File → File → Text → Type 0
IsFree f g name =
    ((line : Text) → Memᴰ line (scan f).tokens → Reserves name line → ⊥)
    × ((line : Text) → Memᴰ line (scan g).tokens → Reserves name line → ⊥)

-- AccountsService has answered that it knows no user of that name.
abbrev pub IsNotFound : Text → Result Err (List Variant) → Type 0
IsNotFound name r =
    (body : Text) × (rest : List Variant) × (r ≡ err (dbus_error error_failed (text body ∷ rest)))
    × (contains body name ≡ true)

-- What each verdict states, where `f` and `g` are the files and `found` is the answer of
-- FindUserByName.
abbrev pub Says : File → File → Result Err (List Variant) → Text → UsernameValidation → Type 0
Says f g found name empty = name ≡ []
Says f g found name invalid_chars = (IsName name → ⊥) × (is_empty name ≡ false)
Says f g found name too_long = IsName name × (32 < length name)
Says f g found name system_reserved = IsName name × (length name ≤ 32) × IsReserved f g name
Says f g found name already_in_use =
    IsName name × (length name ≤ 32) × IsFree f g name × (is_ok found ≡ true)
Says f g found name valid =
    IsName name × (length name ≤ 32) × IsFree f g name × IsNotFound name found

module _ {W : Type 0} (bus : Bus W) (files : Files W) (s : Service) (f g : File) (name : Text)
    (w v u : W) (passwd_opens : files.open_file s.passwd_master_path w ≡ (ok f, v))
    (group_opens : files.open_file s.group_master_path v ≡ (ok g, u)) where
  abbrev found : Result Err (List Variant)
  found = (bus.call s.accounts find_user_by_name (text name ∷ []) u).0

  check_reserved_steps :
      (b : Bool)
      → (check_reserved bus files s name w).0 ≡ ok b
      → ((check_reserved bus files s name w).1 ≡ u)
        × ((b ≡ true) × (scan_file f name ≡ ok true)
            ⊎ (scan_file f name ≡ ok false) × (scan_file g name ≡ ok b))
  unfolding check_reserved scan_group
  check_reserved_steps b h = ground arith

  on_body_says :
      (e : Text) (vs : List Variant) (body : Text) (x : W) (verdict : UsernameValidation)
      → (on_body bus files s name e (dbus_error e vs) (text body) x).0 ≡ ok verdict
      → (verdict ≡ valid) × (e ≡ error_failed) × (contains body name ≡ true)
  unfolding on_body
  on_body_says e vs body x verdict h =
      (ground arith, ground (arith, text_eq→eq e error_failed), ground arith)

  on_found_says :
      (r : Result Err (List Variant)) (x : W) (verdict : UsernameValidation)
      → (on_found bus files s name r x).0 ≡ ok verdict
      → (verdict ≡ already_in_use) × (is_ok r ≡ true) ⊎ (verdict ≡ valid) × IsNotFound name r
  unfolding on_found on_body
  on_found_says (ok body) x verdict h = inl (ground arith, refl)
  on_found_says (err (dbus_error e [])) x verdict h = absurd (cc)
  on_found_says (err (dbus_error e (text body ∷ rest))) x verdict h =
      let (is_valid, failed, names) = on_body_says e (text body ∷ rest) body x verdict h in
      inr (is_valid, (body, rest, ap (λ t. err (dbus_error t (text body ∷ rest))) failed, names))
  on_found_says (err (dbus_error e (_ ∷ rest))) x verdict h = absurd (cc)
  on_found_says (err _) x verdict h = absurd (cc)
  on_found_says panic x verdict h = absurd (cc)

  abbrev answered : W
  answered = (bus.call s.accounts find_user_by_name (text name ∷ []) u).1

  look_up-found :
      (verdict : UsernameValidation)
      → (look_up bus files s name u).0 ≡ ok verdict
      → (on_found bus files s name found answered).0 ≡ ok verdict
  unfolding look_up on_found
  look_up-found verdict h = ground arith

  abbrev Sys : UsernameValidation → Type 0
  Sys = Says f g found name

  check_system_says :
      (verdict : UsernameValidation)
      → IsName name
      → length name ≤ 32
      → (check_system bus files s name w).0 ≡ ok verdict
      → Sys verdict
  unfolding check_system on_reserved
  check_system_says verdict is_name short h = go (check_reserved bus files s name w).0 refl
    where
      free : scan_file f name ≡ ok false → scan_file g name ≡ ok false → IsFree f g name
      free p q = ((scan_file-Reserves f name).1 p, (scan_file-Reserves g name).1 q)

      reserved :
          (true ≡ true) × (scan_file f name ≡ ok true)
            ⊎ (scan_file f name ≡ ok false) × (scan_file g name ≡ ok true)
          → IsReserved f g name
      reserved (inl (_, p)) = inl ((scan_file-Reserves f name).0 p)
      reserved (inr (_, q)) = inr ((scan_file-Reserves g name).0 q)

      answer :
          IsFree f g name
          → (verdict ≡ already_in_use) × (is_ok found ≡ true)
            ⊎ (verdict ≡ valid) × IsNotFound name found
          → Sys verdict
      answer fr (inl (e, p)) = subst Sys (sym e) (is_name, short, fr, p)
      answer fr (inr (e, p)) = subst Sys (sym e) (is_name, short, fr, p)

      go : (r : Result Err Bool) → (check_reserved bus files s name w).0 ≡ r → Sys verdict
      go (ok true) q =
          let (same, cases) = check_reserved_steps true q in
          subst Sys {x = system_reserved} (ground (arith, q)) (is_name, short, reserved cases)
      go (ok false) q =
          let (same, cases) = check_reserved_steps false q in
          elim cases [
            | inl (ff, _) ↦ absurd (cc)
            | inr (p, r) ↦ answer (free p r) (
                on_found_says found answered verdict
                  (look_up-found verdict (ground (arith, q, same))))
          ]
      go (err e) q = absurd (ground (arith, q))
      go panic q = absurd (ground (arith, q))

  -- Every verdict that `ValidateUsername` returns is right, on each of its six branches, where the
  -- two files can be opened: `f` and `g` are what they hold, and `found` is the answer of
  -- FindUserByName.
  pub validate_username-Says :
      (verdict : UsernameValidation)
      → (validate_username bus files s (some name) w).0 ≡ ok verdict
      → Says f g found name verdict
  unfolding validate_username is_empty
  validate_username-Says verdict h = elim (Bool-cases (is_empty name)) [
    | inl e ↦ subst Sys {x = empty} (ground (arith, e)) (is_empty-nil name e)
    | inr e ↦ elim (Bool-cases (matches_username name)) [
      | inr m ↦
          subst Sys {x = invalid_chars} (ground (arith, e, m))
            ((λ n. false≢true (sym m ∙ IsName-matches_username name n)), e)
      | inl m ↦
          let (is_name, bytes) = matches_username-IsName name m in
          elim (Bool-cases (ltb 32 (byte_len name))) [
            | inl l ↦
                subst Sys {x = too_long} (ground (arith, e, m, l))
                  (is_name, ground (arith, l, bytes))
            | inr l ↦
                check_system_says verdict is_name (ground (arith, l, bytes))
                  (ground (arith, e, m, l, h))
          ]
    ]
  ]

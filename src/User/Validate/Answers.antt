-- ===== src/User/Validate/Answers.antt =====
-- When `ValidateUsername` returns a verdict.
use ubuntu_installer_latest.Base.{
  Text, text_eq_refl, Bool, true, ◌≡◌, ◌⊎◌, inl, inr, List, [], ◌∷◌, some, arith, continue, catch,
  Err, Result, ok, err, panic, Variant, text, is_ok,
}
use ubuntu_installer_latest.Base.Scanner.{File}
use ubuntu_installer_latest.System.{Bus, Files}
use ubuntu_installer_latest.User.Service.{Service}
use ubuntu_installer_latest.User.Validate.{
  validate_username, check_system, check_reserved, scan_group, scan_file, look_up, on_found,
  on_body, find_user_by_name, error_failed, on_reserved,
}
use ubuntu_installer_latest.User.Validate.Verdict.{IsNotFound}

module _ {W : Type 0} (bus : Bus W) (files : Files W) (s : Service) (f g : File) (name : Text)
    (w v u : W) (passwd_opens : files.open_file s.passwd_master_path w ≡ (ok f, v))
    (group_opens : files.open_file s.group_master_path v ≡ (ok g, u)) where
  abbrev reply : Result Err (List Variant)
  reply = (bus.call s.accounts find_user_by_name (text name ∷ []) u).0

  on_found_ok :
      (r : Result Err (List Variant)) (x : W)
      → (is_ok r ≡ true) ⊎ IsNotFound name r
      → is_ok (on_found bus files s name r x).0 ≡ true
  unfolding on_found on_body
  on_found_ok r x (inl h) = ground arith
  on_found_ok r x (inr (body, rest, e, c)) = rw (e, text_eq_refl error_failed, c)

  look_up_ok :
      (is_ok reply ≡ true) ⊎ IsNotFound name reply → is_ok (look_up bus files s name u).0 ≡ true
  unfolding look_up
  look_up_ok h = go (bus.call s.accounts find_user_by_name (text name ∷ []) u) h
    where
      go :
          (r : Result Err (List Variant) × W)
          → (is_ok r.0 ≡ true) ⊎ IsNotFound name r.0
          → is_ok (continue (on_found bus files s name) (catch (λ x. r) u)).0 ≡ true
      go (ok a, x) k = on_found_ok (ok a) x k
      go (err e, x) k = on_found_ok (err e) x k
      go (panic, x) k = absurd (ground arith)

  check_system_ok :
      (a b : Bool)
      → scan_file f name ≡ ok a
      → scan_file g name ≡ ok b
      → (is_ok reply ≡ true) ⊎ IsNotFound name reply
      → is_ok (check_system bus files s name w).0 ≡ true
  unfolding check_system check_reserved scan_group on_reserved
  check_system_ok a b p q h = ground (arith, look_up_ok h)

  -- `ValidateUsername` returns a verdict for every name, if the two files can be opened and scanned
  -- for it without an error, and AccountsService answers that it has found the user or that it has
  -- not.
  pub validate_username_total :
      (a b : Bool)
      → scan_file f name ≡ ok a
      → scan_file g name ≡ ok b
      → (is_ok reply ≡ true) ⊎ IsNotFound name reply
      → is_ok (validate_username bus files s (some name) w).0 ≡ true
  unfolding validate_username
  validate_username_total a b p q h = ground (arith, check_system_ok a b p q h)

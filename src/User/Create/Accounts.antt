-- ===== src/User/Create/Accounts.antt =====
-- What the steps of `CreateUser` before its rollback do to the accounts.
use ubuntu_installer_latest.Base.{
  ℕ, Text, Bool, false, ◌≡◌, refl, none, List, [], ◌∷◌, arith, ◌⊎◌, inl, inr,
}
use ubuntu_installer_latest.Base.{Err, Result, ok, err, panic, Variant, text, int32, is_ok}
use ubuntu_installer_latest.System.{Bus, Crypt}
use ubuntu_installer_latest.User.Service.{Service}
use ubuntu_installer_latest.User.Password.{hash_password}
use ubuntu_installer_latest.User.Create.{
  Account, Failure, validate, add_account, secure, configure, provision, accounts_create_user,
  account_type,
}
use ubuntu_installer_latest.User.Create.Services.{AccountsLaws}

module _ {W : Type 0} (bus : Bus W) (s : Service) (c : Crypt W) (laws : AccountsLaws bus s c) where
  abbrev Has : List ℕ → W → Type 0
  Has us w = laws.users w ≡ us

  hash-users : (us : List ℕ) (p : Text) (w : W) → Has us w → Has us (hash_password c p none w).1
  unfolding hash_password
  hash-users us p w h =
      ground (arith, laws.gensalt-users w, laws.crypt-users p (c.gensalt w).0 (c.gensalt w).1)

  pub secure-users : (path p : Text) (w : W) → laws.users (secure bus s c path p w).1 ≡ laws.users w
  unfolding secure
  secure-users path p w =
      grind (arith, hash-users (laws.users w) p w, laws.password-users, laws.uid-users)

  pub configure-users :
      (path : Text) (u : Account) (w : W) → laws.users (configure bus s path u w).1 ≡ laws.users w
  unfolding configure
  configure-users path u w = grind (arith, laws.login-users, laws.set_host-users)

  pub validate_same : (u : Account) (w : W) → (validate bus s u w).1 ≡ w
  unfolding validate
  validate_same u w = ground arith

  pub add_account_ok :
      (is_admin : Bool) (u : Account) (path : Text) (w : W)
      → (add_account bus s is_admin u w).0 ≡ ok path
      → laws.users (add_account bus s is_admin u w).1 ≡ laws.path_uid path ∷ laws.users w
  unfolding add_account
  add_account_ok is_admin u path w h =
      let args = text u.username ∷ text u.real_name ∷ int32 (account_type is_admin) ∷ [] in
      grind (arith, laws.create_users args)

  pub add_account_err :
      (is_admin : Bool) (u : Account) (w : W)
      → is_ok (add_account bus s is_admin u w).0 ≡ false
      → laws.users (add_account bus s is_admin u w).1 ≡ laws.users w
  unfolding add_account
  add_account_err is_admin u w h = go (bus.call s.accounts accounts_create_user args w).0 refl
    where
      args : List Variant
      args = text u.username ∷ text u.real_name ∷ int32 (account_type is_admin) ∷ []

      go :
          (r : Result Err (List Variant))
          → (bus.call s.accounts accounts_create_user args w).0 ≡ r
          → laws.users (add_account bus s is_admin u w).1 ≡ laws.users w
      go (ok body) e = ground (arith, laws.has_path args body w e)
      go (err x) e = ground (arith, laws.refused_users args w)
      go panic e = ground (arith, laws.refused_users args w)

  pub secure_uid :
      (path p : Text) (n : ℕ) (w : W) → (secure bus s c path p w).0 ≡ ok n → n ≡ laws.path_uid path
  unfolding secure
  secure_uid path p n w h = grind (arith, laws.get_uid)

  -- What `provision` has done when it fails: it has added no account, or one; and then the failure
  -- names its ID, unless the password or the ID was not to be had.
  abbrev pub Failed : Bool → Account → W → W → ℕ → Type 0
  Failed is_admin u w v n =
      (n ≡ 0) × (laws.users v ≡ laws.users w)
      ⊎ (path : Text) × ((add_account bus s is_admin u w).0 ≡ ok path)
        × (laws.users v ≡ laws.path_uid path ∷ laws.users w)
        × ((n ≡ 0)
              × (is_ok (secure bus s c path u.password (add_account bus s is_admin u w).1).0
                  ≡ false)
            ⊎ n ≡ laws.path_uid path)

  pub provision_err :
      (is_admin : Bool) (u : Account) (w : W) (f : Failure)
      → (provision bus s c is_admin u w).0 ≡ err f
      → Failed is_admin u w (provision bus s c is_admin u w).1 f.user_id
  unfolding provision
  provision_err is_admin u w f h = go (validate bus s u w).0 refl
    where
      v : W
      v = (add_account bus s is_admin u w).1

      by_id :
          (path : Text) (r : Result Err ℕ)
          → (validate bus s u w).0 ≡ ok tt
          → (add_account bus s is_admin u w).0 ≡ ok path
          → (secure bus s c path u.password v).0 ≡ r
          → Failed is_admin u w (provision bus s c is_admin u w).1 f.user_id
      by_id path (ok n) g e q = inr (
        path,
        e,
        ground (
          arith,
          g,
          e,
          q,
          validate_same u w,
          add_account_ok is_admin u path w e,
          secure-users path u.password v,
          configure-users path u (secure bus s c path u.password v).1,
        ),
        inr (ground (arith, g, e, q, validate_same u w, secure_uid path u.password n v q)),
      )
      by_id path (err x) g e q = inr (
        path,
        e,
        ground (
          arith,
          g,
          e,
          q,
          validate_same u w,
          add_account_ok is_admin u path w e,
          secure-users path u.password v,
        ),
        inl (ground (arith, g, e, q, validate_same u w), ground (arith, q)),
      )
      by_id path panic g e q = absurd (ground (arith, g, e, q, validate_same u w))

      by_path :
          (r : Result Err Text)
          → (validate bus s u w).0 ≡ ok tt
          → (add_account bus s is_admin u w).0 ≡ r
          → Failed is_admin u w (provision bus s c is_admin u w).1 f.user_id
      by_path (ok path) g e = by_id path (secure bus s c path u.password v).0 g e refl
      by_path (err x) g e =
          inl (ground (arith, g, e, validate_same u w, add_account_err is_admin u w))
      by_path panic g e = absurd (ground (arith, g, e, validate_same u w))

      go :
          (r : Result Err Unit)
          → (validate bus s u w).0 ≡ r
          → Failed is_admin u w (provision bus s c is_admin u w).1 f.user_id
      go (ok a) g = by_path (add_account bus s is_admin u w).0 g refl
      go (err x) g = inl (ground (arith, g, validate_same u w))
      go panic g = absurd (ground (arith, g, validate_same u w))

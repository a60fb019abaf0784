-- ===== src/User/Create/Outcomes.antt =====
-- What `CreateUser` as a whole leaves of the accounts, for each way in which it can end.
use ubuntu_installer_latest.Base.{
  ℕ, Text, is_empty, Bool, true, false, ◌≡◌, ◌≢◌, refl, Option, some, List, [], ◌∷◌, arith,
}
use ubuntu_installer_latest.Base.{
  Err, Result, ok, err, panic, Variant, text, bool, is_ok, message, status_err, internal, ◌⊎◌,
}
use ubuntu_installer_latest.System.{Bus, Crypt}
use ubuntu_installer_latest.User.Service.{Service}
use ubuntu_installer_latest.User.Password.{hash_password}
use ubuntu_installer_latest.User.Create.{
  Account, CreateUserRequest, Failure, create_user, create_from, create_body, deferred, after,
  rollback, provision, validate, add_account, secure, configure, set_static_hostname,
  static_hostname, delete_user, restore, on_current, user_object, user_set_automatic_login,
}
use ubuntu_installer_latest.User.Create.Services.{HostnameLaws, AccountsLaws}
use ubuntu_installer_latest.User.Create.Accounts.{
  validate_same, secure-users, add_account_ok, configure-users,
}
use ubuntu_installer_latest.User.Create.Rollback.{
  deletion, Kept, rollback-users_none, deferred-users,
}

abbrev pub request : Bool → Account → Option CreateUserRequest
request is_admin u = some (record { user = some u; is_admin = is_admin })

-- The error of the hash of an empty password.
abbrev pub no_hash : Err
no_hash =
    status_err internal "failed to generate hashed password: %v"
      (message "password cannot be empty")

module _ {W : Type 0} (bus : Bus W) (s : Service) (c : Crypt W) (laws : AccountsLaws bus s c)
    (hosts : HostnameLaws bus s)
    (set_returns : (args : List Variant) (w : W)
      → (bus.call s.hostname set_static_hostname args w).0 ≢ panic)
    (is_admin : Bool) (u : Account) where
  module _
      (delete_failed : (n : ℕ) (w : W)
        → is_ok (deletion bus s c laws n w).0 ≡ false
        → laws.users (deletion bus s c laws n w).1 ≡ laws.users w) where
    -- Where AccountsService and hostnamed keep their contracts, SetStaticHostname does not panic
    -- and a DeleteUser that returns no success leaves the accounts, a `CreateUser` that returns an
    -- error leaves the accounts as they were, or with the one account that its call has created; and
    -- then the password was not set or the ID was not read, the ID is 0, or the last call of all is
    -- a DeleteUser of that account that returned no success.
    pub create_user-users_err :
        (w : W) {e : Err}
        → (create_user bus s c (request is_admin u) w).0 ≡ err e
        → let v = (bus.get_property s.hostname static_hostname w).1 in
          let end = (create_user bus s c (request is_admin u) w).1 in
          (laws.users end ≡ laws.users w) ⊎ Kept bus s c laws is_admin u v end
    unfolding create_user create_from create_body
    create_user-users_err w {e} h =
        let v = (bus.get_property s.hostname static_hostname w).1 in
        ground (
          arith,
          hosts.get_host w,
          laws.get_host-users w,
          deferred-users bus s c laws hosts set_returns delete_failed is_admin u (hosts.host w) v
              {e = e},
        )

  secure_empty :
      (path : Text) (w : W)
      → is_empty u.password ≡ true
      → secure bus s c path u.password w ≡ (err no_hash, w)
  unfolding secure hash_password
  secure_empty path w h = rw h

  pub validate_ok :
      (w : W)
      → is_empty u.username ≡ false
      → is_empty u.real_name ≡ false
      → is_empty u.hostname ≡ false
      → validate bus s u w ≡ (ok tt, w)
  unfolding validate
  validate_ok w name real host = ground arith

  provision_empty :
      (path : Text) (w : W)
      → is_empty u.username ≡ false
      → is_empty u.real_name ≡ false
      → is_empty u.hostname ≡ false
      → is_empty u.password ≡ true
      → (add_account bus s is_admin u w).0 ≡ ok path
      → provision bus s c is_admin u w
        ≡ (err (record { cause = no_hash; user_id = 0 }), (add_account bus s is_admin u w).1)
  unfolding provision
  provision_empty path w name real host pass added = ground (
    arith,
    validate_ok w name real host,
    secure_empty path (add_account bus s is_admin u w).1 pass,
  )

  rollback_returns : (initial : Text) (w : W) → (rollback bus s initial 0 w).0 ≢ panic
  unfolding rollback on_current restore delete_user
  rollback_returns initial w =
      let v = (bus.get_property s.hostname static_hostname w).1 in
      ground (arith, hosts.get_host w, set_returns (text initial ∷ bool false ∷ []) v)

  -- An account is left behind: where AccountsService and hostnamed keep their contracts and
  -- SetStaticHostname does not panic, the fields but the password are given, the password is empty
  -- and AccountsService creates the account, `CreateUser` returns the error of the hash, and the
  -- new account is still there at the end.
  pub create_user-leaks_account :
      (path : Text) (w : W)
      → is_empty u.username ≡ false
      → is_empty u.real_name ≡ false
      → is_empty u.hostname ≡ false
      → is_empty u.password ≡ true
      → (add_account bus s is_admin u (bus.get_property s.hostname static_hostname w).1).0 ≡ ok path
      → let end = create_user bus s c (request is_admin u) w in
        (end.0 ≡ err no_hash) × (laws.users end.1 ≡ laws.path_uid path ∷ laws.users w)
  unfolding create_user create_from create_body deferred after
  create_user-leaks_account path w name real host pass added =
      let v = (bus.get_property s.hostname static_hostname w).1 in
      let x = (add_account bus s is_admin u v).1 in
      ground (
        arith,
        hosts.get_host w,
        laws.get_host-users w,
        provision_empty path v name real host pass added,
        add_account_ok bus s c laws is_admin u path v added,
        rollback_returns (hosts.host w) x,
        rollback-users_none bus s c laws hosts set_returns (hosts.host w) x,
      )

  host-configure :
      (path : Text) (w : W)
      → (configure bus s path u w).0 ≡ ok tt
      → hosts.host (configure bus s path u w).1 ≡ u.hostname
  unfolding configure
  host-configure path w h =
      let login = bool u.auto_login ∷ [] in
      ground (
        arith,
        hosts.set_host u.hostname (bus.call (user_object path) user_set_automatic_login login w).1,
      )

  -- One account more than in `w`, and the requested hostname.
  abbrev Added : W → W → Type 0
  Added w v =
      (path : Text) × (laws.users v ≡ laws.path_uid path ∷ laws.users w)
      × (hosts.host v ≡ u.hostname)

  provision_success :
      (w : W)
      → (provision bus s c is_admin u w).0 ≡ ok tt
      → Added w (provision bus s c is_admin u w).1
  unfolding provision
  provision_success w h = by_path (add_account bus s is_admin u w).0 refl
    where
      v : W
      v = (add_account bus s is_admin u w).1

      by_id :
          (path : Text) (r : Result Err ℕ)
          → (add_account bus s is_admin u w).0 ≡ ok path
          → (secure bus s c path u.password v).0 ≡ r
          → Added w (provision bus s c is_admin u w).1
      by_id path (ok n) p q =
          let x = (secure bus s c path u.password v).1 in
          (
            path,
            ground (
              arith,
              p,
              q,
              validate_same bus s c laws u w,
              add_account_ok bus s c laws is_admin u path w p,
              secure-users bus s c laws path u.password v,
              configure-users bus s c laws path u x,
            ),
            ground (arith, p, q, validate_same bus s c laws u w, host-configure path x),
          )
      by_id path (err e) p q = absurd (ground (arith, p, q, validate_same bus s c laws u w))
      by_id path panic p q = absurd (ground (arith, p, q, validate_same bus s c laws u w))

      by_path :
          (r : Result Err Text)
          → (add_account bus s is_admin u w).0 ≡ r
          → Added w (provision bus s c is_admin u w).1
      by_path (ok path) p = by_id path (secure bus s c path u.password v).0 p refl
      by_path (err e) p = absurd (ground (arith, p, validate_same bus s c laws u w))
      by_path panic p = absurd (ground (arith, p, validate_same bus s c laws u w))

  deferred_ok :
      (initial : Text) (r : Result Failure Unit × W)
      → (deferred bus s initial r).0 ≡ ok tt
      → (r.0 ≡ ok tt) × ((deferred bus s initial r).1 ≡ r.1)
  unfolding deferred after
  deferred_ok initial (ok a, w) h = (refl, refl)
  deferred_ok initial (err f, w) h = ground arith
  deferred_ok initial (panic, w) h = cc

  -- Where AccountsService and hostnamed keep their contracts and SetStaticHostname does not panic,
  -- a `CreateUser` that returns no error has added one account, and the static hostname is the
  -- requested one.
  pub create_user-success :
      (w : W)
      → (create_user bus s c (request is_admin u) w).0 ≡ ok tt
      → let v = (create_user bus s c (request is_admin u) w).1 in
        (path : Text) × (laws.users v ≡ laws.path_uid path ∷ laws.users w)
        × (hosts.host v ≡ u.hostname)
  unfolding create_user create_from create_body
  create_user-success w h =
      let v = (bus.get_property s.hostname static_hostname w).1 in
      let same =
        deferred_ok (hosts.host w) (provision bus s c is_admin u v)
          (ground (arith, hosts.get_host w)) in
      let (path, users, host) = provision_success v (same.0) in
      (
        path,
        ground (arith, hosts.get_host w, laws.get_host-users w, same.1, users),
        ground (arith, hosts.get_host w, same.1, host),
      )

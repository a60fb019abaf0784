-- ===== src/User/Create/Services.antt =====
-- What the documentation of systemd-hostnamed and of AccountsService says of the calls that
-- `CreateUser` makes: the hypotheses of the theorems on it.
use ubuntu_installer_latest.Base.{
  ℕ, Text, ◌≡◌, Option, true, false, List, [], ◌∷◌, Variant, ok, text, bool, uint64, is_ok,
}
use ubuntu_installer_latest.System.{Bus, Crypt}
use ubuntu_installer_latest.User.Service.{Service}
use ubuntu_installer_latest.User.Create.{
  static_hostname, set_static_hostname, accounts_create_user, accounts_delete_user, user_object,
  user_set_password, user_uid, user_set_automatic_login,
}

-- The static hostname can be read at any time, is what the last successful call has set, and does
-- not depend on the accounts. What a failed call leaves behind is not said.
pub record HostnameLaws {W : Type 0} (bus : Bus W) (s : Service) : Type 0 where
  pub host : W → Text
  pub get_host : (w : W) → (bus.get_property s.hostname static_hostname w).0 ≡ ok (text (host w))
  pub get-host : (w : W) → host (bus.get_property s.hostname static_hostname w).1 ≡ host w
  pub set_host :
      (t : Text) (w : W)
      → let r = bus.call s.hostname set_static_hostname (text t ∷ bool false ∷ []) w in
        is_ok r.0 ≡ true → host r.1 ≡ t
  pub delete-host :
      (args : List Variant) (w : W)
      → host (bus.call s.accounts accounts_delete_user args w).1 ≡ host w

-- The accounts are named by their user IDs, and the path of an account's object fixes its ID. Only
-- a successful CreateUser adds an account, and only DeleteUser removes one.
pub record AccountsLaws {W : Type 0} (bus : Bus W) (s : Service) (c : Crypt W) : Type 0 where
  pub users : W → List ℕ
  pub path_uid : Text → ℕ
  pub create_users :
      (args body : List Variant) (path : Text) (w : W)
      → (bus.call s.accounts accounts_create_user args w).0 ≡ ok body
      → bus.store_object_path body ≡ ok path
      → users (bus.call s.accounts accounts_create_user args w).1 ≡ path_uid path ∷ users w
  pub refused_users :
      (args : List Variant) (w : W)
      → is_ok (bus.call s.accounts accounts_create_user args w).0 ≡ false
      → users (bus.call s.accounts accounts_create_user args w).1 ≡ users w
  pub has_path :
      (args body : List Variant) (w : W)
      → (bus.call s.accounts accounts_create_user args w).0 ≡ ok body
      → is_ok (bus.store_object_path body) ≡ true
  pub get_uid :
      (path : Text) (w : W) (v : Variant)
      → (bus.get_property (user_object path) user_uid w).0 ≡ ok v
      → v ≡ uint64 (path_uid path)
  pub delete_users :
      (n : ℕ) (rest : List ℕ) (w : W)
      → users w ≡ n ∷ rest
      → is_ok (bus.call s.accounts accounts_delete_user (uint64 n ∷ []) w).0 ≡ true
      → users (bus.call s.accounts accounts_delete_user (uint64 n ∷ []) w).1 ≡ rest
  pub uid-users :
      (path : Text) (w : W) → users (bus.get_property (user_object path) user_uid w).1 ≡ users w
  pub password-users :
      (path : Text) (args : List Variant) (w : W)
      → users (bus.call (user_object path) user_set_password args w).1 ≡ users w
  pub login-users :
      (path : Text) (args : List Variant) (w : W)
      → users (bus.call (user_object path) user_set_automatic_login args w).1 ≡ users w
  pub get_host-users : (w : W) → users (bus.get_property s.hostname static_hostname w).1 ≡ users w
  pub set_host-users :
      (args : List Variant) (w : W)
      → users (bus.call s.hostname set_static_hostname args w).1 ≡ users w
  pub gensalt-users : (w : W) → users (c.gensalt w).1 ≡ users w
  pub crypt-users :
      (plain : Text) (salt : Option Text) (w : W) → users (c.crypt plain salt w).1 ≡ users w

-- ===== src/Testutils/Accounts/Lines.antt =====
-- What `CreateUser` asks of the mocks, and the actions that they log for it.
use ubuntu_installer_latest.Base.{
  ℕ, Text, codes, text_eq, is_empty, ◌==◌, Bool, false, ◌≡◌, List, [], ◌∷◌, ◌++◌, if◌then◌else◌,
  Err, ok, text, bool, int32, uint64, internal, status_err, replies,
}
use ubuntu_installer_latest.Base.Strings.{has_suffix}
use ubuntu_installer_latest.Base.Decimal.{show_decimal}
use ubuntu_installer_latest.System.{Bus, dbus_hostname_prefix, dbus_user_prefix}
use ubuntu_installer_latest.User.Service.{Service}
use ubuntu_installer_latest.User.Create.{
  Account, account_type, static_hostname, set_static_hostname, accounts_create_user,
  accounts_delete_user, user_object, user_set_password, user_uid, user_set_automatic_login,
}
use ubuntu_installer_latest.Testutils.Actions.{ActionFiles}
use ubuntu_installer_latest.Testutils.Hostname.{
  HostnameBus, hostname_error_path, hostname_failed, mock_set_static_hostname, mock_get_hostname,
}
use ubuntu_installer_latest.Testutils.Accounts.{user_path, mock_create_user, mock_delete_user}
use ubuntu_installer_latest.Testutils.UserMock.{
  UserBus, uid_user_deletion_fails, uid_user_get_fails, show_bool, mock_set_password,
  mock_set_automatic_login, mock_get_user,
}

-- The bus passes the calls of the User service to the methods of the mocks, where the user of the
-- name `name` is mocked by `m`; a user ID of 32 bits is passed as such.
pub record ServesUsers {W : Type 0} (bus : Bus W) (s : Service) (files : ActionFiles W)
    (h : HostnameBus) (name : Text) (m : UserBus) : Type 0 where
  pub serves_host :
      (w : W)
      → bus.get_property s.hostname static_hostname w
        ≡ mock_get_hostname files h (codes dbus_hostname_prefix) (codes "StaticHostname") w
  pub serves_set_host :
      (t : Text) (b : Bool) (w : W)
      → bus.call s.hostname set_static_hostname (text t ∷ bool b ∷ []) w
        ≡ replies (λ _. []) (mock_set_static_hostname files h t b w)
  pub serves_create :
      (username real_name : Text) (n : ℕ) (w : W)
      → bus.call s.accounts accounts_create_user (text username ∷ text real_name ∷ int32 n ∷ []) w
        ≡ replies (λ p. text p ∷ []) (mock_create_user files username real_name n w)
  pub stores : (p : Text) → bus.store_object_path (text p ∷ []) ≡ ok p
  pub serves_delete :
      (w : W)
      → bus.call s.accounts accounts_delete_user (uint64 m.id ∷ []) w
        ≡ replies (λ _. []) (mock_delete_user files m.id w)
  pub serves_password :
      (hashed hint : Text) (w : W)
      → bus.call (user_object (user_path name)) user_set_password (text hashed ∷ text hint ∷ []) w
        ≡ replies (λ _. []) (mock_set_password files m hashed hint w)
  pub serves_uid :
      (w : W)
      → bus.get_property (user_object (user_path name)) user_uid w
        ≡ mock_get_user files m (codes dbus_user_prefix) (codes "Uid") w
  pub serves_login :
      (b : Bool) (w : W)
      → bus.call (user_object (user_path name)) user_set_automatic_login (bool b ∷ []) w
        ≡ replies (λ _. []) (mock_set_automatic_login files m b w)

-- The lines of the golden files of TestCreateUser.
abbrev pub host_line : Text
host_line =
    codes "hostname1.Get(interfaceName: org.freedesktop.hostname1, propertyName: StaticHostname)"

abbrev pub create_line : Account → Bool → Text
create_line u is_admin =
    codes "Accounts.CreateUser(username: \""
    ++ (u.username
        ++ (codes "\", realname: \""
            ++ (u.real_name
                ++ (codes "\", accountType: "
                    ++ (show_decimal (account_type is_admin) ++ codes ")")))))

abbrev pub host_set_line : Text → Text
host_set_line hostname = codes "hostname1.SetStaticHostname(hostname: " ++ (hostname ++ codes ")")

abbrev pub delete_line : ℕ → Text
delete_line id = codes "Accounts.DeleteUser(userID: " ++ (show_decimal id ++ codes ")")

abbrev pub password_line : Text
password_line = codes "User.SetPassword"

abbrev pub uid_line : Text
uid_line = codes "User.Get(interfaceName: org.freedesktop.Accounts.User, propertyName: Uid)"

abbrev pub login_line : Bool → Text
login_line auto_login =
    codes "User.SetAutomaticLogin(autoLogin: " ++ (show_bool auto_login ++ codes ")")

abbrev pub created_lines : Account → Bool → List Text
created_lines u is_admin =
    create_line u is_admin ∷ password_line ∷ uid_line ∷ login_line u.auto_login ∷ []

abbrev pub success_lines : Account → Bool → List Text
success_lines u is_admin = host_line ∷ (created_lines u is_admin ++ (host_set_line u.hostname ∷ []))

-- The rollback; the mock does not log a deletion that it makes fail.
abbrev pub undo_lines : ℕ → List Text
undo_lines id = host_line ∷ (if id == uid_user_deletion_fails then [] else delete_line id ∷ [])

abbrev pub rollback_lines : Account → Bool → ℕ → List Text
rollback_lines u is_admin id = host_line ∷ (created_lines u is_admin ++ undo_lines id)

abbrev pub log_lines : {W : Type 0} → (Text → W → W) → List Text → W → W
log_lines log [] w = w
log_lines log (l ∷ ls) w = log_lines log ls (log l w)

-- A request that the mocks take: nothing is empty, and no name or ID is one that makes the mocks
-- fail before the hostname is set.
pub record IsTaken (h : HostnameBus) (m : UserBus) (u : Account) : Type 0 where
  pub has_name : is_empty u.username ≡ false
  pub has_real_name : is_empty u.real_name ≡ false
  pub has_host : is_empty u.hostname ≡ false
  pub creates : has_suffix u.username (codes "create-user-error") ≡ false
  pub gets_host : text_eq h.static_hostname hostname_error_path ≡ false
  pub gets_uid : (m.id == uid_user_get_fails) ≡ false
  pub has_id : (m.id == 0) ≡ false

abbrev pub no_host : Err
no_host =
    status_err internal "failed to set Hostname: %v" (hostname_failed (codes "SetStaticHostname"))

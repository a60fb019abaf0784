-- ===== src/User/Create.antt =====
-- `CreateUser` of user.go, with the rollback that it defers.
pub mod Services
pub mod Hostname
pub mod Kept
pub mod Rollback
pub mod Accounts
pub mod Outcomes
pub mod Overlap
use ubuntu_installer_latest.Base.{
  ℕ, Text, text_eq, is_empty, Bool, true, false, Option, none, some, String, ◌==◌, List, [], ◌∷◌,
  if◌then◌else◌,
}
use ubuntu_installer_latest.Base.{
  Err, Result, ok, err, panic, Run, Variant, text, bool, int32, uint64, invalid_argument, internal,
  status_err, status_message, or_status, map_err, catch, pure, throw, lift, refuse_if, as_text,
  as_uint64, ◌>>=◌, ◌>>◌,
}
use ubuntu_installer_latest.System.{
  Object, Bus, Crypt, member, dbus_accounts_prefix, dbus_user_prefix, dbus_hostname_prefix,
}
use ubuntu_installer_latest.User.Service.{Service}
use ubuntu_installer_latest.User.Password.{hash_password}

-- The messages of user.proto; `none` is a nil pointer.
pub record Account : Type 0 where
  pub username : Text
  pub real_name : Text
  pub password : Text
  pub hostname : Text
  pub auto_login : Bool

pub record CreateUserRequest : Type 0 where
  pub user : Option Account
  pub is_admin : Bool

-- An error inside `CreateUser`, with the value of the variable `userID` at that moment.
pub record Failure : Type 0 where
  pub cause : Err
  pub user_id : ℕ

abbrev pub at_id : {W A : Type 0} → ℕ → Run W Err A → Run W Failure A
at_id n m = map_err (λ e. record { cause = e; user_id = n }) m

abbrev pub static_hostname : String
static_hostname = member dbus_hostname_prefix ".StaticHostname"

abbrev pub set_static_hostname : String
set_static_hostname = member dbus_hostname_prefix ".SetStaticHostname"

abbrev pub accounts_create_user : String
accounts_create_user = member dbus_accounts_prefix ".CreateUser"

abbrev pub accounts_delete_user : String
accounts_delete_user = member dbus_accounts_prefix ".DeleteUser"

abbrev pub user_set_password : String
user_set_password = member dbus_user_prefix ".SetPassword"

abbrev pub user_uid : String
user_uid = member dbus_user_prefix ".Uid"

abbrev pub user_set_automatic_login : String
user_set_automatic_login = member dbus_user_prefix ".SetAutomaticLogin"

-- The object of a user, at the path that the creation returned.
abbrev pub user_object : Text → Object
user_object path = record { destination = dbus_accounts_prefix; path = path }

-- The type of the new account: 1 for an administrator.
abbrev pub account_type : Bool → ℕ
account_type true = 1
account_type false = 0

module _ {W : Type 0} (bus : Bus W) (s : Service) where
  -- The deferred function, after it has read the static hostname again. Its errors are logged.
  unfoldable pub delete_user : ℕ → Run W Err Unit
  delete_user user_id w =
      if user_id == 0
      then (ok tt, w)
      else (do
        catch {F = Err} (bus.call s.accounts accounts_delete_user (uint64 user_id ∷ []))
        pure tt)
          w

  unfoldable pub restore : Text → ℕ → Text → Run W Err Unit
  restore initial user_id current w =
      if text_eq current initial
      then delete_user user_id w
      else (do
        catch {F = Err} (bus.call s.hostname set_static_hostname (text initial ∷ bool false ∷ []))
        delete_user user_id)
          w

  unfoldable pub on_current : Text → ℕ → Result Err Variant → Run W Err Unit
  on_current initial user_id (ok (text current)) = restore initial user_id current
  on_current initial user_id _ = pure tt

  unfoldable pub rollback : Text → ℕ → Run W Err Unit
  rollback initial user_id = do
    property ← catch {F = Err} (bus.get_property s.hostname static_hostname)
    on_current initial user_id property

  -- What is left of an error once the deferred function has run.
  unfoldable pub after : Err → Result Err Unit × W → Result Err Unit × W
  after e (panic, w) = (panic, w)
  after e (_, w) = (err e, w)

  -- The deferred function runs for an error; a panic finds the named result nil.
  unfoldable pub deferred : Text → Result Failure Unit × W → Result Err Unit × W
  deferred initial (ok _, w) = (ok tt, w)
  deferred initial (err f, w) = after f.cause (rollback initial f.user_id w)
  deferred initial (panic, w) = (panic, w)

  unfoldable pub validate : Account → Run W Err Unit
  validate u = do
    refuse_if (is_empty u.username) (status_message invalid_argument "received an empty username")
    refuse_if (is_empty u.real_name) (status_message invalid_argument "received an empty realName")
    refuse_if (is_empty u.hostname) (status_message invalid_argument "received an empty Hostname")

  -- The call that creates the account, and the path of its object.
  unfoldable pub add_account : Bool → Account → Run W Err Text
  add_account is_admin u = or_status internal "failed to create user: %v" do
    body ←
        bus.call s.accounts accounts_create_user
          (text u.username ∷ text u.real_name ∷ int32 (account_type is_admin) ∷ [])
    lift (bus.store_object_path body)

  -- The password, and then the user ID, which the rollback needs.
  unfoldable pub secure : Crypt W → Text → Text → Run W Err ℕ
  secure c path password = do
    hashed ←
        or_status internal "failed to generate hashed password: %v" (hash_password c password none)
    or_status internal "failed to set password: %v"
        (bus.call (user_object path) user_set_password (text hashed ∷ text [] ∷ []))
    property ←
        or_status internal "failed to get user ID: %v"
          (bus.get_property (user_object path) user_uid)
    as_uint64 (status_message internal "failed to convert user ID to uint64") property

  unfoldable pub configure : Text → Account → Run W Err Unit
  configure path u = do
    or_status internal "failed to set autologin: %v"
        (bus.call (user_object path) user_set_automatic_login (bool u.auto_login ∷ []))
    or_status internal "failed to set Hostname: %v"
        (bus.call s.hostname set_static_hostname (text u.hostname ∷ bool false ∷ []))
    pure tt

  -- The steps on a user that is not nil.
  unfoldable pub provision : Crypt W → Bool → Account → Run W Failure Unit
  provision c is_admin u = do
    at_id 0 (validate u)
    path ← at_id 0 (add_account is_admin u)
    user_id ← at_id 0 (secure c path u.password)
    at_id user_id (configure path u)

  unfoldable pub create_body : Crypt W → Bool → Option Account → Run W Failure Unit
  create_body c is_admin none =
      at_id 0 (throw (status_message invalid_argument "received a nil user"))
  create_body c is_admin (some u) = provision c is_admin u

  unfoldable pub create_from : Crypt W → CreateUserRequest → Text → Run W Err Unit
  create_from c req initial w = deferred initial (create_body c req.is_admin req.user w)

  unfoldable pub create_user : Crypt W → Option CreateUserRequest → Run W Err Unit
  create_user c none = throw (status_message invalid_argument "received a nil request")
  create_user c (some req) = do
    property ←
        or_status internal "failed to get current hostname: %v"
          (bus.get_property s.hostname static_hostname)
    initial ←
        as_text (status_message internal "failed to convert current hostname to string") property
    create_from c req initial

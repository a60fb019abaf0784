-- ===== src/Tests/Users.antt =====
-- A system with users and a hostname, and CreateUser and ValidateUsername on it.
pub mod Overlaps
use ubuntu_installer_latest.Base.{
  ℕ, suc, Text, codes, str_eq, text_eq, is_empty, ◌==◌, if◌then◌else◌, true, false, ◌≡◌, ◌≢◌, refl,
  some, List, [], ◌∷◌, ◌++◌, length, arith, String, Err, Variant, text, bool, uint64, Result, ok,
  err, panic, message, is_ok, ◌⊎◌,
}
use ubuntu_installer_latest.System.{Bus, Crypt}
use ubuntu_installer_latest.User.Service.{default_service}
use ubuntu_installer_latest.User.Password.{hash_password}
use ubuntu_installer_latest.User.Create.{
  Account, create_user, create_from, create_body, provision, validate, add_account, secure,
  configure, deferred, after, rollback, on_current, restore, delete_user, static_hostname,
  set_static_hostname, accounts_create_user, accounts_delete_user,
}
use ubuntu_installer_latest.User.Create.Services.{HostnameLaws, AccountsLaws}
use ubuntu_installer_latest.User.Create.Hostname.{create_user-restores-host}
use ubuntu_installer_latest.User.Create.Outcomes.{
  request, no_hash, create_user-users_err, create_user-leaks_account, create_user-success,
}
use ubuntu_installer_latest.User.Create.Rollback.{Kept}

data Member : Type 0 where
  create delete set_host_name others : Member

-- The users by their IDs, and the static hostname.
record World : Type 0 where
  users : List ℕ
  hostname : Text

abbrev member_of : String → Member
member_of m =
    if str_eq m accounts_create_user
    then create
    else if str_eq m accounts_delete_user
    then delete
    else if str_eq m set_static_hostname
    then set_host_name
    else others

-- A new user takes the path that is the number of users.
abbrev create_in : World → Result Err (List Variant) × World
create_in w =
    (ok (text (length w.users ∷ []) ∷ []), record w { users = suc (length w.users) ∷ w.users })

abbrev remove : ℕ → List ℕ → List ℕ
remove n [] = []
remove n (m ∷ ms) = let rest = remove n ms in if n == m then ms else m ∷ rest

abbrev delete_in : List Variant → World → Result Err (List Variant) × World
delete_in (uint64 n ∷ []) w = (ok [], record w { users = remove n w.users })
delete_in _ w = (err (message "no such user"), w)

-- The hostname `x` is taken in part, with an error.
abbrev set_in : List Variant → World → Result Err (List Variant) × World
set_in (text t ∷ _) w =
    if text_eq t (codes "x")
    then (err (message "not a hostname"), record w { hostname = codes "?" })
    else (ok [], record w { hostname = t })
set_in _ w = (err (message "no arguments"), w)

abbrev by_member : Member → List Variant → World → Result Err (List Variant) × World
by_member create args w = create_in w
by_member delete args w = delete_in args w
by_member set_host_name args w = set_in args w
by_member others args w = (ok [], w)

abbrev path_uid : Text → ℕ
path_uid [] = 1
path_uid (n ∷ _) = suc n

abbrev stored_path : List Variant → Result Err Text
stored_path (text t ∷ _) = ok t
stored_path _ = err (message "no path")

abbrev system_bus : Bus World
system_bus = record {
  call = λ o m args w. by_member (member_of m) args w;
  get_property = λ o m w.
      (ok (if str_eq m static_hostname then text w.hostname else uint64 (path_uid o.path)), w);
  store_object_path = stored_path;
  store_texts = λ vs. ok [];
  variant_string = λ v. [];
}

abbrev plain_crypt : Crypt World
plain_crypt = record { gensalt = λ w. (some [], w); crypt = λ plain salt w. (some plain, w) }

abbrev two_users : World
two_users = record { users = 2 ∷ 1 ∷ []; hostname = codes "u" }

abbrev alice : Account
alice = record {
  username = codes "a";
  real_name = codes "A";
  password = codes "p";
  hostname = codes "h";
  auto_login = true;
}

abbrev refused : Account
refused = record alice { hostname = codes "x" }

abbrev no_password : Account
no_password = record alice { password = [] }

set_law :
    (t : Text) (w : World)
    → is_ok (set_in (text t ∷ bool false ∷ []) w).0 ≡ true
    → (set_in (text t ∷ bool false ∷ []) w).1.hostname ≡ t
unfolding text_eq
set_law t w h = ground arith

delete_host : (args : List Variant) (w : World) → (delete_in args w).1.hostname ≡ w.hostname
delete_host args w = ground arith

host_laws : HostnameLaws system_bus default_service
host_laws = record {
  host = λ w. w.hostname;
  get_host = λ w. refl;
  get-host = λ w. refl;
  set_host = λ t w h. set_law t w h;
  delete-host = λ args w. delete_host args w;
}

same_users : (args : List Variant) (w : World) → (set_in args w).1.users ≡ w.users
unfolding text_eq
same_users args w = ground arith

set_in_returns : (args : List Variant) (w : World) → (set_in args w).0 ≢ panic
unfolding text_eq
set_in_returns (text t ∷ args) w h = ground arith
set_in_returns [] w h = cc
set_in_returns (_ ∷ args) w h = cc

created :
    (body : List Variant) (path : Text) (w : World)
    → (create_in w).0 ≡ ok body
    → stored_path body ≡ ok path
    → (create_in w).1.users ≡ path_uid path ∷ w.users
created body path w h p = ground arith

removed :
    (n : ℕ) (rest : List ℕ) (w : World)
    → w.users ≡ n ∷ rest
    → (delete_in (uint64 n ∷ []) w).1.users ≡ rest
removed n rest w h = ground arith

account_laws : AccountsLaws system_bus default_service plain_crypt
account_laws = record {
  users = λ w. w.users;
  path_uid = path_uid;
  create_users = λ args body path w h p. created body path w h p;
  refused_users = λ args w h. absurd (cc);
  has_path = λ args body w h. ground arith;
  get_uid = λ path w v h. ground arith;
  delete_users = λ n rest w h o. removed n rest w h;
  uid-users = λ path w. refl;
  password-users = λ path args w. refl;
  login-users = λ path args w. refl;
  get_host-users = λ w. refl;
  set_host-users = λ args w. same_users args w;
  gensalt-users = λ w. refl;
  crypt-users = λ plain salt w. refl;
}

restorable : (v : World) → is_ok (set_in (text (codes "u") ∷ bool false ∷ []) v).0 ≡ true
unfolding text_eq
restorable v = refl

create_user-restores-host_example :
    (create_user system_bus default_service plain_crypt (request true refused) two_users).1.hostname
    ≡ codes "u"
unfolding create_user create_from create_body provision validate add_account secure configure
    deferred after rollback on_current restore delete_user hash_password is_empty text_eq
    account_laws host_laws
create_user-restores-host_example =
    create_user-restores-host system_bus default_service host_laws plain_crypt
      (request true refused) two_users restorable refl

delete_failed :
    (n : ℕ) (w : World)
    → is_ok (delete_in (uint64 n ∷ []) w).0 ≡ false
    → account_laws.users (delete_in (uint64 n ∷ []) w).1 ≡ account_laws.users w
unfolding account_laws
delete_failed n w h = absurd (ground arith)

create_user-users_err_example :
    let w =
      (create_user system_bus default_service plain_crypt (request true refused) two_users).1 in
    (w.users ≡ 2 ∷ 1 ∷ [])
    ⊎ Kept system_bus default_service plain_crypt account_laws true refused two_users w
unfolding create_user create_from create_body provision validate add_account secure configure
    deferred after rollback on_current restore delete_user hash_password is_empty text_eq
    account_laws host_laws
create_user-users_err_example =
    create_user-users_err system_bus default_service plain_crypt account_laws host_laws
      set_in_returns true refused delete_failed two_users refl

-- The same system, which refuses a DeleteUser with one argument.
abbrev by_strict : Member → List Variant → World → Result Err (List Variant) × World
by_strict delete (uint64 n ∷ []) w = (err (message "wrong number of arguments"), w)
by_strict m args w = by_member m args w

abbrev strict_bus : Bus World
strict_bus = record system_bus { call = λ o m args w. by_strict (member_of m) args w }

strict_laws : AccountsLaws strict_bus default_service plain_crypt
strict_laws = record {
  users = λ w. w.users;
  path_uid = path_uid;
  create_users = λ args body path w h p. created body path w h p;
  refused_users = λ args w h. absurd (cc);
  has_path = λ args body w h. ground arith;
  get_uid = λ path w v h. ground arith;
  delete_users = λ n rest w h o. absurd (cc);
  uid-users = λ path w. refl;
  password-users = λ path args w. refl;
  login-users = λ path args w. refl;
  get_host-users = λ w. refl;
  set_host-users = λ args w. same_users args w;
  gensalt-users = λ w. refl;
  crypt-users = λ plain salt w. refl;
}

create_user-leaks_account_example :
    let end =
      create_user system_bus default_service plain_crypt (request true no_password) two_users in
    (end.0 ≡ err no_hash) × (end.1.users ≡ 3 ∷ 2 ∷ 1 ∷ [])
unfolding add_account is_empty account_laws
create_user-leaks_account_example =
    create_user-leaks_account system_bus default_service plain_crypt account_laws host_laws
      set_in_returns true no_password (2 ∷ []) two_users refl refl refl refl refl

create_user-success_example :
    let v = (create_user system_bus default_service plain_crypt (request true alice) two_users).1 in
    (path : Text) × (v.users ≡ path_uid path ∷ 2 ∷ 1 ∷ []) × (v.hostname ≡ codes "h")
unfolding create_user create_from create_body provision validate add_account secure configure
    deferred after rollback on_current restore delete_user hash_password is_empty text_eq
    account_laws host_laws
create_user-success_example =
    create_user-success system_bus default_service plain_crypt account_laws host_laws set_in_returns
      true alice two_users refl

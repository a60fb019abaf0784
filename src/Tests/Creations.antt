-- ===== src/Tests/Creations.antt =====
-- `CreateUser` over its mocks, at one request.
use ubuntu_installer_latest.Base.{
  String, Text, codes, text_eq, str_eq, is_empty, false, ◌≡◌, refl, List, [], ◌∷◌, ◌++◌,
  if◌then◌else◌, some, none, Err, Result, ok, err, Run, Variant, text, bool, int32, uint64, message,
  replies,
}
use ubuntu_installer_latest.Base.Strings.{has_prefix, has_suffix}
use ubuntu_installer_latest.System.{Bus, Crypt, Object, dbus_hostname_prefix, dbus_user_prefix}
use ubuntu_installer_latest.User
use ubuntu_installer_latest.User.Password.{hash_password}
use ubuntu_installer_latest.User.Create.{Account, create_user, static_hostname}
use ubuntu_installer_latest.Testutils.Hostname.{
  HostnameBus, mock_set_static_hostname, mock_get_hostname,
}
use ubuntu_installer_latest.Testutils.Accounts.{mock_create_user, mock_delete_user}
use ubuntu_installer_latest.Testutils.Accounts.Lines.{
  ServesUsers, IsTaken, no_host, success_lines, rollback_lines, log_lines,
}
use ubuntu_installer_latest.Testutils.Accounts.Laws.{create_user-mocked}
use ubuntu_installer_latest.Testutils.UserMock.{
  UserBus, mock_set_password, mock_set_automatic_login, mock_get_user,
}
use ubuntu_installer_latest.Tests.Mocks.{log_files, action_logged}

abbrev host : HostnameBus
host = record { static_hostname = codes "hostname1" }

abbrev user_ok : UserBus
user_ok = record { path = codes "Userok"; id = 1001 }

abbrev call_mocks : Object → String → List Variant → Run (List Text) Err (List Variant)
call_mocks o m (text t ∷ bool b ∷ []) w =
    replies (λ _. []) (mock_set_static_hostname log_files host t b w)
call_mocks o m (text a ∷ text b ∷ int32 n ∷ []) w =
    replies (λ p. text p ∷ []) (mock_create_user log_files a b n w)
call_mocks o m (text a ∷ text b ∷ []) w =
    replies (λ _. []) (mock_set_password log_files user_ok a b w)
call_mocks o m (uint64 n ∷ []) w = replies (λ _. []) (mock_delete_user log_files n w)
call_mocks o m (bool b ∷ []) w = replies (λ _. []) (mock_set_automatic_login log_files user_ok b w)
call_mocks o m _ w = (err (message "no such method"), w)

abbrev get_mocks : Object → String → Run (List Text) Err Variant
get_mocks o m w =
    if str_eq m static_hostname
    then mock_get_hostname log_files host (codes dbus_hostname_prefix) (codes "StaticHostname") w
    else mock_get_user log_files user_ok (codes dbus_user_prefix) (codes "Uid") w

abbrev path_of : List Variant → Result Err Text
path_of (text p ∷ []) = ok p
path_of _ = err (message "no path")

abbrev mocks : Bus (List Text)
mocks = record {
  call = call_mocks;
  get_property = get_mocks;
  store_object_path = path_of;
  store_texts = λ vs. ok [];
  variant_string = λ v. [];
}

mocks_serve : ServesUsers mocks User.Service.default_service log_files host (codes "ok") user_ok
mocks_serve = record {
  serves_host = λ w. refl;
  serves_set_host = λ t b w. refl;
  serves_create = λ a b n w. refl;
  stores = λ p. refl;
  serves_delete = λ w. refl;
  serves_password = λ a b w. refl;
  serves_uid = λ w. refl;
  serves_login = λ b w. refl;
}

abbrev crypt : Crypt (List Text)
crypt = record {
  gensalt = λ w. (some (codes "$6$"), w);
  crypt = λ plain salt w. (some (codes "$6$x"), w);
}

-- The hostname is refused by the mock.
abbrev account : Account
account = record {
  username = codes "ok";
  real_name = codes "ok";
  password = codes "ok";
  hostname = codes "set-static-hostname-error";
  auto_login = false;
}

account-IsTaken : IsTaken host user_ok account
unfolding is_empty text_eq has_suffix has_prefix
account-IsTaken = record {
  has_name = refl;
  has_real_name = refl;
  has_host = refl;
  creates = refl;
  gets_host = refl;
  gets_uid = refl;
  has_id = refl;
}

password_hashed : (w : List Text) → hash_password crypt (codes "ok") none w ≡ (ok (codes "$6$x"), w)
unfolding hash_password is_empty
password_hashed w = refl

create_user-mocked_example :
    create_user mocks User.Service.default_service crypt
      (some (record { user = some account; is_admin = false }))
      []
    ≡ (if has_suffix (codes "set-static-hostname-error") (codes "set-static-hostname-error")
        then (
          err no_host,
          log_lines (λ a w. (a ++ codes "\n") ∷ w) (rollback_lines account false 1001) [],
        )
        else (ok tt, log_lines (λ a w. (a ++ codes "\n") ∷ w) (success_lines account false) []))
create_user-mocked_example =
    create_user-mocked mocks User.Service.default_service crypt log_files host user_ok account false
      mocks_serve account-IsTaken (codes "$6$x") password_hashed (λ a w. (a ++ codes "\n") ∷ w)
      action_logged []

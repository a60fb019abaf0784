-- ===== src/Tests/Users/Overlaps.antt =====
-- Two overlapping calls of CreateUser at a concrete system.
use ubuntu_installer_latest.Base.{codes, text_eq, is_empty, true, ◌≡◌, refl, some}
use ubuntu_installer_latest.User.Service.{default_service}
use ubuntu_installer_latest.User.Password.{hash_password}
use ubuntu_installer_latest.User.Create.{
  CreateUserRequest, create_user, create_from, create_body, provision, validate, add_account,
  secure, configure, deferred, after, rollback, on_current, restore, delete_user, static_hostname,
}
use ubuntu_installer_latest.User.Create.Outcomes.{request}
use ubuntu_installer_latest.User.Create.Overlap.{
  resume, second_end, first_end, overlapped-loses_host,
}
use ubuntu_installer_latest.Tests.Users.{
  system_bus, plain_crypt, two_users, alice, refused, account_laws, host_laws, set_in_returns,
  restorable,
}

-- The hostname of the first request is refused.
abbrev first_request : CreateUserRequest
first_request = record { user = some refused; is_admin = true }

overlapped-loses_host_example :
    let read = system_bus.get_property default_service.hostname static_hostname two_users in
    (create_user system_bus default_service plain_crypt (some first_request) two_users
      ≡ resume system_bus default_service plain_crypt first_request read.0 read.1)
    × ((second_end system_bus default_service plain_crypt (request true alice) two_users).1.hostname
        ≡ codes "h")
    × ((first_end system_bus default_service plain_crypt first_request
          (request true alice)
          two_users).1.hostname
        ≡ codes "u")
unfolding create_user create_from create_body provision validate add_account secure configure
    deferred after rollback on_current restore delete_user hash_password is_empty text_eq
    account_laws host_laws resume
overlapped-loses_host_example =
    overlapped-loses_host system_bus default_service plain_crypt host_laws account_laws
      set_in_returns first_request true alice two_users restorable refl refl

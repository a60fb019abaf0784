-- ===== src/Testutils/Accounts/Laws.antt =====
-- `CreateUser` over the mocks of accounts-daemon and hostnamed: the actions that they log.
use ubuntu_installer_latest.Base.{
  Text, codes, text_eq_refl, Bool, false, ◌≡◌, some, none, [], if◌then◌else◌, arith, ok, err, text,
}
use ubuntu_installer_latest.Base.Strings.{has_suffix}
use ubuntu_installer_latest.System.{Bus, Crypt}
use ubuntu_installer_latest.User.Service.{Service}
use ubuntu_installer_latest.User.Password.{hash_password}
use ubuntu_installer_latest.User.Create.{
  Account, create_user, create_from, create_body, deferred, after, rollback, restore, delete_user,
  on_current, provision, validate, add_account, secure, configure, account_type, static_hostname,
}
use ubuntu_installer_latest.Testutils.Actions.{ActionFiles, write_action_to_file}
use ubuntu_installer_latest.Testutils.Hostname.{
  HostnameBus, mock_set_static_hostname, mock_get_hostname,
}
use ubuntu_installer_latest.Testutils.Accounts.{user_path, mock_create_user, mock_delete_user}
use ubuntu_installer_latest.Testutils.UserMock.{
  UserBus, mock_set_password, mock_set_automatic_login, mock_get_user,
}
use ubuntu_installer_latest.Testutils.Accounts.Lines.{
  ServesUsers, IsTaken, no_host, host_line, create_line, host_set_line, delete_line, password_line,
  uid_line, login_line, created_lines, success_lines, undo_lines, rollback_lines, log_lines,
}

module _ {W : Type 0} (bus : Bus W) (s : Service) (c : Crypt W) (files : ActionFiles W)
    (h : HostnameBus) (m : UserBus) (u : Account) (is_admin : Bool)
    (serves : ServesUsers bus s files h u.username m) (taken : IsTaken h m u) (hashed : Text)
    (hashes : (w : W) → hash_password c u.password none w ≡ (ok hashed, w)) (log : Text → W → W)
    (writes : (a : Text) (w : W) → write_action_to_file files a [] w ≡ (ok tt, log a w)) where
  host_read :
      (w : W)
      → bus.get_property s.hostname static_hostname w
        ≡ (ok (text h.static_hostname), log host_line w)
  unfolding mock_get_hostname
  host_read w = ground (arith, serves.serves_host w, taken.gets_host, writes host_line w)

  added :
      (w : W)
      → add_account bus s is_admin u w ≡ (ok (user_path u.username), log (create_line u is_admin) w)
  unfolding add_account mock_create_user
  added w = ground (
    arith,
    serves.serves_create u.username u.real_name (account_type is_admin) w,
    taken.creates,
    writes (create_line u is_admin) w,
    serves.stores (user_path u.username),
  )

  secured :
      (w : W)
      → secure bus s c (user_path u.username) u.password w
        ≡ (ok m.id, log uid_line (log password_line w))
  unfolding secure mock_set_password mock_get_user
  secured w = ground (
    arith,
    hashes w,
    serves.serves_password hashed [] w,
    writes password_line w,
    serves.serves_uid (log password_line w),
    taken.gets_uid,
    writes uid_line (log password_line w),
  )

  configured :
      (w : W)
      → configure bus s (user_path u.username) u w ≡ (
          if has_suffix u.hostname (codes "set-static-hostname-error")
          then (err no_host, log (login_line u.auto_login) w)
          else (ok tt, log (host_set_line u.hostname) (log (login_line u.auto_login) w)))
  unfolding configure mock_set_automatic_login mock_set_static_hostname
  configured w = ground (
    arith,
    serves.serves_login u.auto_login w,
    writes (login_line u.auto_login) w,
    serves.serves_set_host u.hostname false (log (login_line u.auto_login) w),
    writes (host_set_line u.hostname) (log (login_line u.auto_login) w),
  )

  rolled_back :
      (w : W)
      → (rollback bus s h.static_hostname m.id w) ≡ (ok tt, log_lines log (undo_lines m.id) w)
  unfolding rollback on_current restore delete_user mock_delete_user
  rolled_back w = ground (
    arith,
    host_read w,
    text_eq_refl h.static_hostname,
    taken.has_id,
    serves.serves_delete (log host_line w),
    writes (delete_line m.id) (log host_line w),
  )

  provisioned :
      (w : W)
      → provision bus s c is_admin u w ≡ (
          if has_suffix u.hostname (codes "set-static-hostname-error")
          then (
            err (record { cause = no_host; user_id = m.id }),
            log_lines log (created_lines u is_admin) w,
          )
          else (ok tt, log (host_set_line u.hostname) (log_lines log (created_lines u is_admin) w)))
  unfolding provision validate
  provisioned w =
      let v = log uid_line (log password_line (log (create_line u is_admin) w)) in
      ground (
        arith,
        taken.has_name,
        taken.has_real_name,
        taken.has_host,
        added w,
        secured (log (create_line u is_admin) w),
        configured v,
      )

  -- `CreateUser` over the mocks logs what the golden files of its tests show, for every request that
  -- the mocks take: where SetStaticHostname is not made to fail, it succeeds, and the log gets the six
  -- lines of a new user; where it is, the error is that of the hostname, and the log gets the lines up
  -- to the hostname, the reading of it by the rollback, and the deletion of the user, unless that is
  -- made to fail. The password is assumed to be hashed, without an effect on the log, and the log to
  -- be writable.
  pub create_user-mocked :
      (w : W)
      → create_user bus s c (some (record { user = some u; is_admin = is_admin })) w ≡ (
          if has_suffix u.hostname (codes "set-static-hostname-error")
          then (err no_host, log_lines log (rollback_lines u is_admin m.id) w)
          else (ok tt, log_lines log (success_lines u is_admin) w))
  unfolding create_user create_from create_body deferred after
  create_user-mocked w =
      let v = log host_line w in
      ground (
        arith,
        host_read w,
        provisioned v,
        rolled_back (log_lines log (created_lines u is_admin) v),
      )

-- ===== src/User/Service.antt =====
-- The state of the User service and its constructor (user.go).
use ubuntu_installer_latest.Base.{Text, codes, internal, Err, Run, List, []}
use ubuntu_installer_latest.Base.{apply_options, or_message, ◌>>◌}
use ubuntu_installer_latest.System.{Object, Bus, dbus_accounts_prefix, dbus_hostname_prefix, ping}

-- The connection is the parameter `bus` of the operations.
pub record Service : Type 0 where
  pub accounts : Object
  pub hostname : Object
  pub passwd_master_path : Text
  pub group_master_path : Text

abbrev pub accounts_object : Object
accounts_object = record {
  destination = dbus_accounts_prefix;
  path = codes "/org/freedesktop/Accounts";
}

abbrev pub hostname_object : Object
hostname_object = record {
  destination = dbus_hostname_prefix;
  path = codes "/org/freedesktop/hostname1";
}

abbrev pub default_service : Service
default_service = record {
  accounts = accounts_object;
  hostname = hostname_object;
  passwd_master_path = codes "/usr/share/base-passwd/passwd.master";
  group_master_path = codes "/usr/share/base-passwd/group.master";
}

module _ {W : Type 0} (bus : Bus W) where
  -- `New`: the default objects are pinged before the options are applied.
  unfoldable pub new : List (Service → Run W Err Service) → Run W Err Service
  unfolding apply_options
  new opts = do
    or_message internal "failed to ping default DBus Accounts object"
        (bus.call accounts_object ping [])
    or_message internal "failed to ping default DBus Hostname object"
        (bus.call hostname_object ping [])
    apply_options opts default_service

-- ===== src/Testutils/UserMock.antt =====
-- The mock of the objects of users: user_mock.go.
use ubuntu_installer_latest.Base.{
  ℕ, Text, codes, ◌==◌, Bool, true, false, List, [], ◌∷◌, ◌++◌, if◌then◌else◌, Err, err, Run,
  Variant, text, uint64, dbus_error, pure, ◌>>◌,
}
use ubuntu_installer_latest.Testutils.Description.{Node, in_arg, properties_description}
use ubuntu_installer_latest.System.{dbus_user_prefix}
use ubuntu_installer_latest.Testutils.Actions.{ActionFiles, write_action_to_file}
use ubuntu_installer_latest.Testutils.Exports.{
  Conn, Entry, mock, introspectable, introspectable_interface, properties_interface, export_mock,
  entries_of,
}

abbrev pub uid_user_deletion_fails : ℕ
uid_user_deletion_fails = 9999

abbrev pub uid_user_get_fails : ℕ
uid_user_get_fails = 9998

pub record UserBus : Type 0 where
  pub path : Text
  pub id : ℕ

abbrev pub accounts_failed : Text → Err
accounts_failed message =
    dbus_error (codes "org.freedesktop.Accounts.Error.Failed") (text message ∷ [])

-- `%t`.
abbrev pub show_bool : Bool → Text
show_bool true = codes "true"
show_bool false = codes "false"

module _ {W : Type 0} (files : ActionFiles W) (u : UserBus) where
  unfoldable pub mock_set_password : Text → Text → Run W Err (Unit {0})
  mock_set_password password hint = write_action_to_file files (codes "User.SetPassword") []

  unfoldable pub mock_set_automatic_login : Bool → Run W Err (Unit {0})
  mock_set_automatic_login auto_login =
      write_action_to_file files
        (codes "User.SetAutomaticLogin(autoLogin: " ++ (show_bool auto_login ++ codes ")")) []

  unfoldable pub mock_get_user : Text → Text → Run W Err Variant
  mock_get_user interface_name property_name w =
      if u.id == uid_user_get_fails
      then (err (accounts_failed (codes "error requested in User.Get mocked method")), w)
      else (do
        write_action_to_file files
            (codes "User.Get(interfaceName: "
              ++ (interface_name ++ (codes ", propertyName: " ++ (property_name ++ codes ")"))))
            []
        pure (uint64 u.id))
          w

-- `userIntro` of `ExportUserMock`.
abbrev pub user_node : Node
user_node =
    record {
      name = dbus_user_prefix;
      methods =
          record { name = "SetPassword"; args = in_arg "name" "s" ∷ in_arg "hint" "s" ∷ [] }
          ∷ record { name = "SetAutomaticLogin"; args = in_arg "autoLogin" "b" ∷ [] }
          ∷ [];
      properties = [];
    }
    ∷ properties_description
    ∷ []

-- A mock is told apart by its path, which fixes its ID.
unfoldable pub user_entries : Text → List Entry
user_entries path =
    let object = codes "/org/freedesktop/Accounts/" ++ path in
    record {
      value = mock "user" path;
      path = object;
      interface = dbus_user_prefix;
      failure = "could not export %s mock: %w";
    }
    ∷ record {
      value = introspectable user_node;
      path = object;
      interface = introspectable_interface;
      failure = "could not export introspectable for %s: %w";
    }
    ∷ record {
      value = mock "user" path;
      path = object;
      interface = properties_interface;
      failure = "could not export DBus Properties mock: %w";
    }
    ∷ []

abbrev pub users : List UserBus
users =
    record { path = codes "Userok"; id = 1001 }
    ∷ record { path = codes "Userdeleteerror"; id = uid_user_deletion_fails }
    ∷ record { path = codes "Usergetfail"; id = uid_user_get_fails }
    ∷ []

abbrev user_paths : List UserBus → List Text
user_paths [] = []
user_paths (u ∷ us) = u.path ∷ user_paths us

unfoldable pub export_user_mock : {W : Type 0} → Conn W → Run W Err (Unit {0})
export_user_mock conn =
    export_mock conn (entries_of user_entries (user_paths users)) dbus_user_prefix
      "failed to acquire user name on local system bus: %w"
      "user name is already taken on local system bus"

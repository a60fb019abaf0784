-- ===== src/Testutils/Accounts.antt =====
-- The mock of AccountsService: accounts_mock.go.
pub mod Laws
pub mod Lines
use ubuntu_installer_latest.Base.{
  ℕ, Text, codes, ◌==◌, List, [], ◌∷◌, ◌++◌, if◌then◌else◌, Err, err, Run, text, dbus_error, pure,
  ◌>>◌,
}
use ubuntu_installer_latest.Base.Strings.{has_suffix}
use ubuntu_installer_latest.Base.Decimal.{show_decimal}
use ubuntu_installer_latest.Testutils.Description.{
  Node, Interface, Method, Arg, in_arg, out_arg, properties_description, peer_node, inward,
}
use ubuntu_installer_latest.System.{dbus_accounts_prefix, dbus_peer_prefix}
use ubuntu_installer_latest.Testutils.Actions.{ActionFiles, write_action_to_file}
use ubuntu_installer_latest.Testutils.Exports.{
  Conn, Entry, mock, introspectable, introspectable_interface, export_mock,
}
use ubuntu_installer_latest.Testutils.UserMock.{uid_user_deletion_fails, accounts_failed}

abbrev pub accounts_path : Text
accounts_path = codes "/org/freedesktop/Accounts"

-- The path of the object of a user.
abbrev pub user_path : Text → Text
user_path name = codes "/org/freedesktop/Accounts/User" ++ name

module _ {W : Type 0} (files : ActionFiles W) where
  unfoldable pub mock_find_user_by_name : Text → Run W Err Text
  mock_find_user_by_name name w =
      if has_suffix name (codes "find-user-by-name-error")
      then (
        err (
            dbus_error (codes "org.freedesktop.Accounts.Error.FindUserByNameError")
              (text (codes "error requested in FindUserByNameError mocked method") ∷ [])),
        w,
      )
      else if has_suffix name (codes "find-user-by-name-not-found")
      then (err (accounts_failed (codes "Your name was: " ++ name)), w)
      else (do
        write_action_to_file files (codes "Accounts.FindUserByName(name: " ++ (name ++ codes ")"))
            []
        pure (user_path name))
          w

  unfoldable pub mock_create_user : Text → Text → ℕ → Run W Err Text
  mock_create_user username realname account_type w =
      if has_suffix username (codes "create-user-error")
      then (
        err (accounts_failed (codes "error requested in CreateUserErrorUsername mocked method")),
        w,
      )
      else (do
        write_action_to_file files
            (codes "Accounts.CreateUser(username: \""
              ++ (username
                  ++ (codes "\", realname: \""
                      ++ (realname
                          ++ (codes "\", accountType: "
                              ++ (show_decimal account_type ++ codes ")"))))))
            []
        pure (user_path username))
          w

  unfoldable pub mock_delete_user : ℕ → Run W Err (Unit {0})
  mock_delete_user user_id w =
      if user_id == uid_user_deletion_fails
      then (err (accounts_failed (codes "error requested in DeleteUser mocked method")), w)
      else write_action_to_file files
          (codes "Accounts.DeleteUser(userID: " ++ (show_decimal user_id ++ codes ")")) [] w

-- `intro` of `ExportAccountsMock`.
abbrev pub accounts_node : Node
accounts_node =
    record {
      name = dbus_accounts_prefix;
      methods =
          record { name = "FindUserByName"; args = in_arg "name" "s" ∷ out_arg "user" "o" ∷ [] }
          ∷ record {
            name = "CreateUser";
            args =
                in_arg "username" "s"
                ∷ in_arg "realName" "s"
                ∷ in_arg "accountType" "i"
                ∷ out_arg "user" "o"
                ∷ [];
          }
          ∷ record { name = "DeleteUser"; args = in_arg "userID" "u" ∷ [] }
          ∷ [];
      properties = [];
    }
    ∷ []

abbrev pub accounts_entries : List Entry
accounts_entries =
    record {
      value = mock "accounts" [];
      path = accounts_path;
      interface = dbus_accounts_prefix;
      failure = "could not export Accounts mock: %w";
    }
    ∷ record {
      value = introspectable accounts_node;
      path = accounts_path;
      interface = introspectable_interface;
      failure = "could not export introspectable for accounts mock: %w";
    }
    ∷ record {
      value = mock "accounts" [];
      path = accounts_path;
      interface = dbus_peer_prefix;
      failure = "could not export Peer mock: %w";
    }
    ∷ record {
      value = introspectable peer_node;
      path = accounts_path;
      interface = introspectable_interface;
      failure = "could not export introspectable for Peer mock: %w";
    }
    ∷ []

unfoldable pub export_accounts_mock : {W : Type 0} → Conn W → Run W Err (Unit {0})
export_accounts_mock conn =
    export_mock conn accounts_entries dbus_accounts_prefix
      "failed to acquire account name on local system bus: %w"
      "failed to acquire account name on local system bus: name is already taken"

-- ===== src/Testutils/Hostname.antt =====
-- The mock of systemd-hostnamed: hostname_mock.go.
use ubuntu_installer_latest.Base.{
  Text, codes, text_eq, Bool, List, [], ◌∷◌, ◌++◌, if◌then◌else◌, Err, err, Run, Variant, text,
  dbus_error, pure, ◌>>◌,
}
use ubuntu_installer_latest.Base.Strings.{has_suffix}
use ubuntu_installer_latest.Testutils.Description.{Node, in_arg, properties_description, peer_node}
use ubuntu_installer_latest.System.{dbus_hostname_prefix, dbus_peer_prefix}
use ubuntu_installer_latest.Testutils.Actions.{ActionFiles, write_action_to_file}
use ubuntu_installer_latest.Testutils.Exports.{
  Conn, Entry, mock, introspectable, introspectable_interface, properties_interface, freedesktop,
  export_mock, entries_of,
}

pub record HostnameBus : Type 0 where
  pub static_hostname : Text

abbrev pub hostname_error_path : Text
hostname_error_path = codes "hostnameerror"

abbrev pub hostname_failed : Text → Err
hostname_failed method =
    dbus_error (codes "org.freedesktop.hostname1.Error.Failed")
      (text (codes "error requested in " ++ (method ++ codes " mocked method")) ∷ [])

module _ {W : Type 0} (files : ActionFiles W) (h : HostnameBus) where
  unfoldable pub mock_set_static_hostname : Text → Bool → Run W Err (Unit {0})
  mock_set_static_hostname hostname some_bool w =
      if has_suffix hostname (codes "set-static-hostname-error")
      then (err (hostname_failed (codes "SetStaticHostname")), w)
      else write_action_to_file files
          (codes "hostname1.SetStaticHostname(hostname: " ++ (hostname ++ codes ")")) [] w

  unfoldable pub mock_get_hostname : Text → Text → Run W Err Variant
  mock_get_hostname interface_name property_name w =
      if text_eq h.static_hostname hostname_error_path
      then (err (hostname_failed (codes "Get")), w)
      else (do
        write_action_to_file files
            (codes "hostname1.Get(interfaceName: "
              ++ (interface_name ++ (codes ", propertyName: " ++ (property_name ++ codes ")"))))
            []
        pure (text h.static_hostname))
          w

-- `hostnameIntro` of `ExportHostnameMock`.
abbrev pub hostname_node : Node
hostname_node =
    record {
      name = dbus_hostname_prefix;
      methods =
          record {
            name = "SetStaticHostname";
            args = in_arg "hostname" "s" ∷ in_arg "someBool" "b" ∷ [];
          }
          ∷ [];
      properties = record { name = "StaticHostname"; type = "s"; access = "read" } ∷ [];
    }
    ∷ properties_description
    ∷ []

unfoldable pub hostname_entries : Text → List Entry
hostname_entries path =
    record {
      value = mock "hostname" path;
      path = freedesktop path;
      interface = dbus_hostname_prefix;
      failure = "could not export hostname1 mock: %w";
    }
    ∷ record {
      value = introspectable hostname_node;
      path = freedesktop path;
      interface = introspectable_interface;
      failure = "could not export introspectable for hostname1 mock: %w";
    }
    ∷ record {
      value = mock "hostname" path;
      path = freedesktop path;
      interface = dbus_peer_prefix;
      failure = "could not export Peer mock: %w";
    }
    ∷ record {
      value = mock "hostname" path;
      path = freedesktop path;
      interface = properties_interface;
      failure = "could not export DBus Properties mock: %w";
    }
    ∷ record {
      value = introspectable peer_node;
      path = freedesktop path;
      interface = introspectable_interface;
      failure = "could not export introspectable for Peer mock: %w";
    }
    ∷ []

abbrev pub hostname_paths : List Text
hostname_paths = codes "hostname1" ∷ hostname_error_path ∷ []

unfoldable pub export_hostname_mock : {W : Type 0} → Conn W → Run W Err (Unit {0})
export_hostname_mock conn =
    export_mock conn (entries_of hostname_entries hostname_paths) dbus_hostname_prefix
      "failed to acquire hostname name on local system bus: %w"
      "hostname name is already taken on local system bus"

-- ===== src/Testutils/Exports.antt =====
-- The part that the mocks share: the values that they export on the bus, and the name that they own.
pub mod Laws
use ubuntu_installer_latest.Base.{
  Text, codes, String, Bool, true, false, List, [], ◌∷◌, ◌++◌, if◌then◌else◌, Err, Result, ok, err,
  Run, on_err, message, map_err, pure, throw, ◌>>=◌, ◌>>◌,
}
use ubuntu_installer_latest.Testutils.Description.{Node}

-- What is exported: a mock, by its kind and the field that tells it apart, or a description.
pub data Exported : Type 0 where
  mock : String → Text → Exported
  introspectable : Node → Exported

-- `dbus.RequestNameReply`.
pub data Reply : Type 0 where
  primary_owner other_reply : Reply

-- `dbus.Conn`, where the mocks use it. The flag of a request is that it is not queued.
pub record Conn (W : Type 0) : Type 0 where
  pub export : Exported → Text → String → Run W Err (Unit {0})
  pub request_name : String → Run W Err Reply

-- A call of `conn.Export`, and the format of its error.
pub record Entry : Type 0 where
  pub value : Exported
  pub path : Text
  pub interface : String
  pub failure : String

abbrev pub introspectable_interface : String
introspectable_interface = "org.freedesktop.DBus.Introspectable"

abbrev pub properties_interface : String
properties_interface = "org.freedesktop.DBus.Properties"

-- The path of a mock on the system bus.
abbrev pub freedesktop : Text → Text
freedesktop path = codes "/org/freedesktop/" ++ path

module _ {W : Type 0} (conn : Conn W) where
  -- Exports, one after the other; the first that fails ends them.
  unfoldable pub export_each : List Entry → Run W Err (Unit {0})
  export_each [] w = (ok tt, w)
  export_each (e ∷ es) w =
      (map_err (on_err e.failure) (conn.export e.value e.path e.interface) >> export_each es) w

  unfoldable pub owner_only : String → Reply → Run W Err (Unit {0})
  owner_only taken primary_owner = pure tt
  owner_only taken other_reply = throw (message taken)

  unfoldable pub acquire : String → String → String → Run W Err (Unit {0})
  acquire name failure taken = do
    reply ← map_err (on_err failure) (conn.request_name name)
    owner_only taken reply

  unfoldable pub export_mock : List Entry → String → String → String → Run W Err (Unit {0})
  export_mock entries name failure taken = do export_each entries; acquire name failure taken

-- The loop over the mocks of a kind: the entries of each, in their order.
unfoldable pub entries_of : (Text → List Entry) → List Text → List Entry
entries_of entries [] = []
entries_of entries (path ∷ paths) = entries path ++ entries_of entries paths

-- ===== src/Testutils/Description.antt =====
-- The XML with which the mocks describe themselves, as the interfaces, methods and arguments that it
-- declares. The interfaces that godbus adds, `introspect.IntrospectDataString`, are left out.
use ubuntu_installer_latest.Base.{String, Option, some, List, [], ◌∷◌}
use ubuntu_installer_latest.System.{dbus_peer_prefix}

-- `in` and `out`.
pub data Direction : Type 0 where
  inward outward : Direction

-- An argument; its name is `none` where the attribute is not well-formed.
pub record Arg : Type 0 where
  pub name : Option String
  pub direction : Direction
  pub type : String

pub record Method : Type 0 where
  pub name : String
  pub args : List Arg

pub record Property : Type 0 where
  pub name : String
  pub type : String
  pub access : String

pub record Interface : Type 0 where
  pub name : String
  pub methods : List Method
  pub properties : List Property

abbrev pub Node : Type 0
Node = List Interface

abbrev pub in_arg : String → String → Arg
in_arg name type = record { name = some name; direction = inward; type = type }

abbrev pub out_arg : String → String → Arg
out_arg name type = record { name = some name; direction = outward; type = type }

-- The description of org.freedesktop.DBus.Peer.
abbrev pub peer_node : Node
peer_node =
    record {
      name = dbus_peer_prefix;
      methods = record { name = "Ping"; args = [] } ∷ [];
      properties = [];
    }
    ∷ []

-- The interface of the properties, which most of the descriptions declare.
abbrev pub properties_description : Interface
properties_description = record {
  name = "org.freedesktop.DBus.Properties";
  methods =
      record {
        name = "Get";
        args = in_arg "interface" "s" ∷ in_arg "property" "s" ∷ out_arg "value" "v" ∷ [];
      }
      ∷ [];
  properties = [];
}

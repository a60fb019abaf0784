-- ===== src/System.antt =====
-- What stands around the daemon: D-Bus, GSettings and the file system, as interfaces over the
-- states `W` of the system. They are parameters of the services. The constants of
-- provd/internal/consts/consts.go stand here too.
use ubuntu_installer_latest.Base.{
  String, Bool, Option, List, Text, codes, Err, Variant, Result, Run,
}
use ubuntu_installer_latest.Base.Scanner.{File}
use Prim.Native.String.{◌++◌ as str_append}

-- `dbus.BusObject`: the destination and the path of a remote object.
pub record Object : Type 0 where
  pub destination : String
  pub path : Text

-- github.com/godbus/dbus: a call with its reply's body, a property, and what turns a body into Go
-- values.
pub record Bus (W : Type 0) : Type 0 where
  pub call : Object → String → List Variant → Run W Err (List Variant)
  pub get_property : Object → String → Run W Err Variant
  pub store_object_path : List Variant → Result Err Text
  pub store_texts : List Variant → Result Err (List Text)
  pub variant_string : Variant → Text

-- `os.Open` and the reading of what it opens.
pub record Files (W : Type 0) : Type 0 where
  pub open_file : Text → Run W Err File

-- gio's settings: a schema's keys.
pub record Settings (W : Type 0) : Type 0 where
  pub is_writable : String → String → W → Bool × W
  pub set_boolean : String → String → Bool → W → Bool × W
  pub get_boolean : String → String → W → Bool × W

-- The functions of libcrypt that password_hash.c calls; `none` is NULL.
pub record Crypt (W : Type 0) : Type 0 where
  pub gensalt : W → Option Text × W
  pub crypt : Text → Option Text → W → Option Text × W

abbrev pub dbus_accounts_prefix : String
dbus_accounts_prefix = "org.freedesktop.Accounts"

abbrev pub dbus_user_prefix : String
dbus_user_prefix = "org.freedesktop.Accounts.User"

abbrev pub dbus_hostname_prefix : String
dbus_hostname_prefix = "org.freedesktop.hostname1"

abbrev pub dbus_peer_prefix : String
dbus_peer_prefix = "org.freedesktop.DBus.Peer"

abbrev pub dbus_locale_prefix : String
dbus_locale_prefix = "org.freedesktop.locale1"

abbrev pub dbus_timedate_prefix : String
dbus_timedate_prefix = "org.freedesktop.timedate1"

abbrev pub dbus_gdm_prefix : String
dbus_gdm_prefix = "org.gnome.DisplayManager"

-- A member of an interface, by its full name.
abbrev pub member : String → String → String
member = str_append

-- The method `Ping` of every object.
abbrev pub ping : String
ping = member dbus_peer_prefix ".Ping"

-- `Version`, as it is initialized.
abbrev pub version : Text
version = codes "Dev"

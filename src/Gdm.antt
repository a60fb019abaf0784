-- ===== src/Gdm.antt =====
-- The GDM service: provd/internal/services/gdm/gdm.go. Its state and its constructor stand here.
pub mod Launch
pub mod Connection
use ubuntu_installer_latest.Base.{
  Text, codes, Bool, true, false, Option, none, some, String, List, [], ◌∷◌,
}
use ubuntu_installer_latest.Base.{
  Err, Run, Variant, Empty, internal, status_message, or_status, as_text, index, apply_options,
  zero, catch, pure, ◌>>=◌, ◌>>◌,
}
use ubuntu_installer_latest.System.{Object, Bus, member, ping, dbus_gdm_prefix}

-- A connection to the private bus of a session: what godbus gives for an address. `bus` calls the
-- objects of that bus.
pub record PrivateBus (W : Type 0) : Type 0 where
  pub dial : Text → Run W Err Empty
  pub auth : Run W Err Empty
  pub hello : Run W Err Empty
  pub bus : Bus W
  pub add_signal_channel : W → W
  pub remove_signal_channel : W → W
  pub close_connection : W → W

-- The objects on the private bus, and whether `privateConn` is set; the connection itself is the
-- parameter `private`.
pub record Service : Type 0 where
  pub display_manager : Object
  pub greeter : Object
  pub user_verifier : Object
  pub connected : Bool

abbrev pub session_path : Text
session_path = codes "/org/gnome/DisplayManager/Session"

abbrev pub default_service : Service
default_service = record {
  display_manager = record {
    destination = dbus_gdm_prefix;
    path = codes "/org/gnome/DisplayManager/Manager";
  };
  greeter = record { destination = member dbus_gdm_prefix ".Greeter"; path = session_path };
  user_verifier = record {
    destination = member dbus_gdm_prefix ".UserVerifier";
    path = session_path;
  };
  connected = false;
}

abbrev pub open_session : String
open_session = member dbus_gdm_prefix ".Manager.OpenSession"

module _ {W : Type 0} (bus : Bus W) (private : PrivateBus W) where
  -- The session is opened on the display manager that the options may have set, and the other two
  -- objects are then those of the private bus, whatever the options have set.
  unfoldable pub new : List (Service → Run W Err Service) → Run W Err Service
  new opts = do
    s ← apply_options opts default_service
    body ←
        or_status internal "failed to call Manager: %s" (bus.call s.display_manager open_session [])
    first ← index body zero
    address ← as_text (status_message internal "failed to get bus address from Manager") first
    or_status internal "failed to connect to session bus: %s" (private.dial address)
    or_status internal "failed to authenticate: %s" private.auth
    catch {F = Err} private.hello
    or_status internal "failed to ping UserVerifier: %s"
        (private.bus.call default_service.user_verifier ping [])
    or_status internal "failed to ping Greeter: %s"
        (private.bus.call default_service.greeter ping [])
    pure (record s {
      greeter = default_service.greeter;
      user_verifier = default_service.user_verifier;
      connected = true;
    })

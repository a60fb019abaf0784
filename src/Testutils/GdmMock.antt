-- ===== src/Testutils/GdmMock.antt =====
-- The mock of a GDM session: gdmSessionBus and emitSignal of gdm_mock.go.
pub mod Closed
pub mod Script
use ubuntu_installer_latest.Base.{
  Text, codes, text_eq, Bool, not, ◌||◌, Option, none, some, String, List, [], ◌∷◌, if◌then◌else◌,
  Err, Result, ok, err, panic, Run, Variant, text, dbus_error, Empty, catch, pure, throw, lift,
  ◌>>=◌, ◌>>◌,
}
use ubuntu_installer_latest.Base.Strings.{cut_last}
use ubuntu_installer_latest.System.{member, dbus_gdm_prefix}
use ubuntu_installer_latest.Gdm.{session_path}
use ubuntu_installer_latest.Gdm.Launch.{problem, secret_info_query, session_opened}

-- A signal, as `dbus.Message` holds it.
pub record Message : Type 0 where
  pub interface : Text
  pub member_name : Text
  pub path : Text
  pub destination : Text
  pub body : List Variant

-- `msg.IsValid` and `conn.Send`.
pub record Sender (W : Type 0) : Type 0 where
  pub is_valid : Message → Result Err Empty
  pub send : Message → Run W Err Empty

-- `gdmSessionBus`, by the user whose verification has begun, and the system.
pub record Session (W : Type 0) : Type 0 where
  pub world : W
  pub username : Text

abbrev pub with_world : {W A : Type 0} → Session W → Result Err A × W → Result Err A × Session W
with_world g (r, w) = (r, record g { world = w })

abbrev pub on_world : {W A : Type 0} → Run W Err A → Run (Session W) Err A
on_world m g = with_world g (m g.world)

-- `dbus.NewError(name, []interface{}{message})`.
abbrev pub gdm_error : String → String → Err
gdm_error name detail = dbus_error (codes (member dbus_gdm_prefix name)) (text (codes detail) ∷ [])

abbrev pub gdm_password : Variant
gdm_password = text (codes "gdm-password")

-- The message of `emitSignal`; the signature is that of the body.
unfoldable pub signal_message : Text → Text → String → List Variant → Option Message
signal_message path destination name values = with_names (cut_last b'.' (codes name))
  where
    with_names : Option (Text × Text) → Option Message
    with_names none = none
    with_names (some (i, m)) = some (record {
      interface = i;
      member_name = m;
      path = path;
      destination = destination;
      body = values;
    })

module _ {W : Type 0} (conn : Sender W) where
  unfoldable pub send_valid : Option Message → Run W Err Empty
  send_valid none w = (panic, w)
  send_valid (some m) w = (lift (conn.is_valid m) >> conn.send m) w

  unfoldable pub emit_signal : Text → Text → String → List Variant → Run W Err Empty
  emit_signal path destination name values =
      send_valid (signal_message path destination name values)

  -- `_ = emitSignal(...)` on the path of the session.
  unfoldable pub emit : Text → String → List Variant → Run (Session W) Err (Result Err Empty)
  emit sender name values = catch (on_world (emit_signal session_path sender name values))

  unfoldable pub set_username : Text → Run (Session W) Err Empty
  set_username username g = (ok tt, record g { username = username })

  unfoldable pub begin_verification_for_user : Text → Text → Text → Run (Session W) Err Text
  begin_verification_for_user service_name username sender g =
      if text_eq username (codes "begin-verification-fails")
      then (
        err (
            gdm_error ".UserVerifier.BeginVerificationForUser.Error.Failed"
              "failed to begin verification"),
        g,
      )
      else (do
        set_username username
        emit sender secret_info_query (gdm_password ∷ text (codes "foobar") ∷ [])
        pure [])
          g

  unfoldable pub answer_query : Text → Text → Text → Run (Session W) Err Empty
  answer_query service_name answer sender g =
      if text_eq answer (codes "answer-query-fails")
      then (err (gdm_error ".UserVerifier.AnswerQuery.Error.Failed" "failed to answer query"), g)
      else if not (text_eq g.username (codes "myuser")) || not (text_eq answer (codes "mypassword"))
      then (do
        emit sender problem (gdm_password ∷ text (codes "Invalid username or password") ∷ [])
        pure tt)
          g
      else (do emit sender session_opened (gdm_password ∷ []); pure tt) g

  unfoldable pub start_session_when_ready : Text → Bool → Run (Session W) Err Empty
  start_session_when_ready service_name should_start_session g =
      if text_eq g.username (codes "start-session-fails")
      then (
        err (gdm_error ".Greeter.StartSessionWhenReady.Error.Failed" "failed to start session"),
        g,
      )
      else (ok tt, g)

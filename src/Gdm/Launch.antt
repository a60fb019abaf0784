-- ===== src/Gdm/Launch.antt =====
-- `LaunchDesktopSession` and `Close` of gdm.go. The loop runs over the events that its `select`
-- receives, in their order; it waits while there is none.
pub mod Protocol
pub mod Session
pub mod Completion
use ubuntu_installer_latest.Base.{
  zero, suc, Text, codes, str_eq, is_empty, Bool, true, false, Option, none, some, String, List, [],
  ◌∷◌, if◌then◌else◌,
}
use ubuntu_installer_latest.Base.{
  Err, Result, ok, err, panic, Run, Variant, text, bool, on_value, invalid_argument, internal,
  deadline_exceeded, status, status_message, or_status, as_text, index, refuse_if, pure, throw,
  ◌>>=◌, ◌>>◌,
}
use ubuntu_installer_latest.System.{Bus, member, dbus_gdm_prefix}
use ubuntu_installer_latest.Gdm.{Service, PrivateBus}

pub record Signal : Type 0 where
  pub name : String
  pub body : List Variant

-- What the `select` receives: the end of the context, a signal, or the nil of a closed channel.
pub data Event : Type 0 where
  context_done : Event
  received : Signal → Event
  channel_closed : Event

pub record GdmServiceRequest : Type 0 where
  pub username : Text
  pub password : Text

abbrev pub problem : String
problem = member dbus_gdm_prefix ".UserVerifier.Problem"

abbrev pub secret_info_query : String
secret_info_query = member dbus_gdm_prefix ".UserVerifier.SecretInfoQuery"

abbrev pub session_opened : String
session_opened = member dbus_gdm_prefix ".Greeter.SessionOpened"

abbrev pub begin_verification : String
begin_verification = member dbus_gdm_prefix ".UserVerifier.BeginVerificationForUser"

abbrev pub answer_query : String
answer_query = member dbus_gdm_prefix ".UserVerifier.AnswerQuery"

abbrev pub start_session_when_ready : String
start_session_when_ready = member dbus_gdm_prefix ".Greeter.StartSessionWhenReady"

-- What a case of the `switch` does next: go round the loop, or return.
pub data Next : Type 0 where
  again : Next
  return : Next

-- How the handler stands: it waits for an event, or it has returned.
pub data Launch : Type 0 where
  waiting : Launch
  finished : Result Err Unit → Launch

module _ {W : Type 0} where
  -- The rest of the loop is given as a function of the state.
  unfoldable pub after_event : (W → Launch × W) → Result Err Next × W → Launch × W
  after_event rest (ok again, w) = rest w
  after_event rest (ok return, w) = (finished (ok tt), w)
  after_event rest (err e, w) = (finished (err e), w)
  after_event rest (panic, w) = (finished panic, w)

module _ {W : Type 0} (private : PrivateBus W) (s : Service) (password : Text) where
  unfoldable pub on_problem : List Variant → Run W Err Next
  on_problem body = do
    detail ← index body (suc zero)
    throw (status internal (on_value "received Problem signal: %v" detail))

  unfoldable pub on_secret_info_query : List Variant → Run W Err Next
  on_secret_info_query body = do
    first ← index body zero
    msg ←
        as_text (status_message internal "failed to get message from SecretInfoQuery signal") first
    or_status internal "failed to call AnswerQuery: %v"
        (private.bus.call s.user_verifier answer_query (text msg ∷ text password ∷ []))
    pure again

  unfoldable pub on_session_opened : List Variant → Run W Err Next
  on_session_opened body = do
    first ← index body zero
    msg ← as_text (status_message internal "failed to get message from SessionOpened signal") first
    or_status internal "failed to call StartSessionWhenReady: %v"
        (private.bus.call s.greeter start_session_when_ready (text msg ∷ bool true ∷ []))
    pure return

  -- The `switch` on the name of a signal.
  unfoldable pub on_signal : Signal → Run W Err Next
  on_signal signal w =
      if str_eq signal.name problem
      then on_problem signal.body w
      else if str_eq signal.name secret_info_query
      then on_secret_info_query signal.body w
      else if str_eq signal.name session_opened
      then on_session_opened signal.body w
      else (ok again, w)

  unfoldable pub on_event : Event → Run W Err Next
  on_event context_done w = (err (status_message deadline_exceeded "context deadline exceeded"), w)
  on_event (received signal) w = on_signal signal w
  on_event channel_closed w = (panic, w)

  unfoldable pub wait_for_signals : List Event → W → Launch × W
  wait_for_signals [] w = (waiting, w)
  wait_for_signals (e ∷ es) w = after_event (wait_for_signals es) (on_event e w)

module _ {W : Type 0} (private : PrivateBus W) (s : Service) where
  -- The deferred calls, when the handler has returned.
  unfoldable pub cleaned : Launch × W → Launch × W
  cleaned (waiting, w) = (waiting, w)
  cleaned (finished r, w) = (finished r, private.remove_signal_channel w)

  unfoldable pub after_begin : Text → List Event → Result Err Unit × W → Launch × W
  after_begin password es (ok _, w) = cleaned (wait_for_signals private s password es w)
  after_begin password es (err e, w) = cleaned (finished (err e), w)
  after_begin password es (panic, w) = cleaned (finished panic, w)

  unfoldable pub begin_user : Text → Run W Err Unit
  begin_user username = do
    or_status internal "failed to call BeginVerificationForUser: %v" (
        private.bus.call s.user_verifier begin_verification
          (text (codes "gdm-password") ∷ text username ∷ []))
    pure tt

  unfoldable pub launch_desktop_session : Option GdmServiceRequest → List Event → W → Launch × W
  launch_desktop_session none es w =
      (finished (err (status_message invalid_argument "received a nil request")), w)
  launch_desktop_session (some req) es w =
      if is_empty req.username
      then (finished (err (status_message invalid_argument "received an empty username")), w)
      else after_begin req.password es (begin_user req.username (private.add_signal_channel w))

  -- `Close`.
  unfoldable pub close : W → W
  close w = if s.connected then private.close_connection w else w

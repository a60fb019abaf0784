-- ===== src/Testutils/GdmMock/Script.antt =====
-- What the tests ask of the mock of a GDM session, and what they hear of it.
use ubuntu_installer_latest.Base.{
  Text, codes, text_eq, text_eq→eq, true, false, ◌&&◌, ◌≡◌, refl, String, List, [], ◌∷◌,
  if◌then◌else◌, arith, Err, Result, ok, err, Variant, text, bool, on_value, internal, status,
  status_err,
}
use ubuntu_installer_latest.Gdm.{session_path}
use ubuntu_installer_latest.Gdm.Launch.{
  Event, received, problem, secret_info_query, session_opened, begin_verification, answer_query,
  start_session_when_ready,
}
use ubuntu_installer_latest.Testutils.GdmMock.{Message, gdm_error, gdm_password}

-- What the tests ask of the mock: the names and the passwords that it knows.
pub data Case : Type 0 where
  cannot_begin cannot_answer is_user is_stranger : Case

abbrev pub case_of : Text → Text → Case
case_of username password =
    if text_eq username (codes "begin-verification-fails")
    then cannot_begin
    else if text_eq password (codes "answer-query-fails")
    then cannot_answer
    else if text_eq username (codes "myuser") && text_eq password (codes "mypassword")
    then is_user
    else is_stranger

abbrev pub Fits : Case → Text → Text → Type 0
Fits cannot_begin u p = text_eq u (codes "begin-verification-fails") ≡ true
Fits cannot_answer u p =
    (text_eq u (codes "begin-verification-fails") ≡ false)
    × (text_eq p (codes "answer-query-fails") ≡ true)
Fits is_user u p =
    (text_eq u (codes "begin-verification-fails") ≡ false)
    × (text_eq p (codes "answer-query-fails") ≡ false)
    × (text_eq u (codes "myuser") ≡ true)
    × (text_eq p (codes "mypassword") ≡ true)
Fits is_stranger u p =
    (text_eq u (codes "begin-verification-fails") ≡ false)
    × (text_eq p (codes "answer-query-fails") ≡ false)
    × ((text_eq u (codes "myuser") && text_eq p (codes "mypassword")) ≡ false)

pub case_of-Fits : (u p : Text) → Fits (case_of u p) u p
case_of-Fits u p = ground arith

-- `myuser` is no name that the mock refuses to start.
pub user_starts :
    (u : Text) → text_eq u (codes "myuser") ≡ true → text_eq u (codes "start-session-fails") ≡ false
unfolding text_eq
user_starts u e = rw (text_eq→eq u (codes "myuser") e) refl

abbrev pub question : Event
question =
    received (record { name = secret_info_query; body = gdm_password ∷ text (codes "foobar") ∷ [] })

abbrev pub opening : Event
opening = received (record { name = session_opened; body = gdm_password ∷ [] })

abbrev pub invalid : Variant
invalid = text (codes "Invalid username or password")

abbrev pub refusal : Event
refusal = received (record { name = problem; body = gdm_password ∷ invalid ∷ [] })

-- The signals that the mock sends, as the service receives them.
abbrev pub heard : Case → List Event
heard cannot_begin = []
heard cannot_answer = question ∷ []
heard is_user = question ∷ opening ∷ []
heard is_stranger = question ∷ refusal ∷ []

-- How the launch ends.
abbrev pub verdict : Case → Result Err (Unit {0})
verdict cannot_begin = err (
    status_err internal "failed to call BeginVerificationForUser: %v" (
      gdm_error ".UserVerifier.BeginVerificationForUser.Error.Failed"
        "failed to begin verification"))
verdict cannot_answer = err (
    status_err internal "failed to call AnswerQuery: %v"
      (gdm_error ".UserVerifier.AnswerQuery.Error.Failed" "failed to answer query"))
verdict is_user = ok tt
verdict is_stranger = err (status internal (on_value "received Problem signal: %v" invalid))

abbrev pub from_session : Text → String → String → List Variant → Message
from_session sender interface name body = record {
  interface = codes interface;
  member_name = codes name;
  path = session_path;
  destination = sender;
  body = body;
}

abbrev pub verifier : String
verifier = "org.gnome.DisplayManager.UserVerifier"

abbrev pub greeter : String
greeter = "org.gnome.DisplayManager.Greeter"

abbrev pub asking : Text → Message
asking sender =
    from_session sender verifier "SecretInfoQuery" (gdm_password ∷ text (codes "foobar") ∷ [])

abbrev pub opened : Text → Message
opened sender = from_session sender greeter "SessionOpened" (gdm_password ∷ [])

abbrev pub refused : Text → Message
refused sender = from_session sender verifier "Problem" (gdm_password ∷ invalid ∷ [])

-- What passes over the private bus: a call of the service, and a message that the mock sends.
pub data Traffic : Type 0 where
  called : String → List Variant → Traffic
  sent : Message → Traffic

-- The verification is begun, and the question comes back.
abbrev pub begun : Text → Traffic
begun username = called begin_verification (gdm_password ∷ text username ∷ [])

abbrev pub answered : Text → Traffic
answered password = called answer_query (gdm_password ∷ text password ∷ [])

abbrev pub session_started : Traffic
session_started = called start_session_when_ready (gdm_password ∷ bool true ∷ [])

-- All that passes in a launch, in order.
abbrev pub said : Text → Text → Text → Case → List Traffic
said sender username password cannot_begin = begun username ∷ []
said sender username password cannot_answer =
    begun username ∷ sent (asking sender) ∷ answered password ∷ []
said sender username password is_user =
    begun username
    ∷ sent (asking sender)
    ∷ answered password
    ∷ sent (opened sender)
    ∷ session_started
    ∷ []
said sender username password is_stranger =
    begun username ∷ sent (asking sender) ∷ answered password ∷ sent (refused sender) ∷ []

abbrev pub log_all : {W : Type 0} → (Traffic → W → W) → List Traffic → W → W
log_all log [] w = w
log_all log (m ∷ ms) w = log_all log ms (log m w)

-- The session at the end: only a name whose verification has begun is kept.
abbrev pub named : Case → Text → Text → Text
named cannot_begin username before = before
named _ username before = username

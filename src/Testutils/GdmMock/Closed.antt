-- ===== src/Testutils/GdmMock/Closed.antt =====
-- The launch of a session against the mock: each hears what the other says.
use ubuntu_installer_latest.Base.{
  Text, codes, text_eq, is_empty, Bool, true, false, ◌&&◌, ◌≡◌, refl, some, String, List, [], ◌∷◌,
  arith, Err, Result, ok, Variant, text, bool, replies,
}
use ubuntu_installer_latest.Base.Strings.{cut_last, with_last}
use ubuntu_installer_latest.Gdm.{Service, PrivateBus, session_path}
use ubuntu_installer_latest.Gdm.Launch
use ubuntu_installer_latest.Gdm.Launch.{
  Event, received, problem, secret_info_query, session_opened, begin_verification,
  start_session_when_ready, Launch, finished, launch_desktop_session, on_problem,
  on_secret_info_query, on_session_opened, on_signal, on_event, after_event, wait_for_signals,
  cleaned, after_begin, begin_user,
}
use ubuntu_installer_latest.Testutils.GdmMock
use ubuntu_installer_latest.Testutils.GdmMock.{
  Sender, Session, Message, gdm_error, gdm_password, signal_message, begin_verification_for_user,
  emit, emit_signal, send_valid, set_username,
}
use ubuntu_installer_latest.Testutils.GdmMock.Script.{
  Case, cannot_begin, cannot_answer, is_user, is_stranger, case_of, Fits, case_of-Fits, user_starts,
  question, invalid, heard, verdict, from_session, verifier, greeter, asking, opened, refused, said,
  log_all, named, Traffic, called, sent, begun, answered, session_started,
}

-- The session once `log` has noted a piece of traffic.
abbrev pub noted : {W : Type 0} → (Traffic → W → W) → Traffic → Session W → Session W
noted log t g = record g { world = log t g.world }

-- The private bus answers the service by the methods of the mock, to which registering for signals
-- does nothing; the three messages that the mock makes for this sender are valid, and what is sent
-- arrives. `log` notes each call before the mock runs, and each message that is sent.
pub record ServesGdm {W : Type 0} (private : PrivateBus (Session W)) (s : Service) (conn : Sender W)
    (sender : Text) (log : Traffic → W → W) : Type 0 where
  pub serves_begin :
      (service username : Text) (g : Session W)
      → let args = text service ∷ text username ∷ [] in
        private.bus.call s.user_verifier begin_verification args g
        ≡ replies
            (λ t. text t ∷ [])
            (begin_verification_for_user conn service username sender
              (noted log (called begin_verification args) g))
  pub serves_answer :
      (service answer : Text) (g : Session W)
      → let args = text service ∷ text answer ∷ [] in
        private.bus.call s.user_verifier Launch.answer_query args g
        ≡ replies
            (λ _. [])
            (GdmMock.answer_query conn service answer sender
              (noted log (called Launch.answer_query args) g))
  pub serves_start :
      (service : Text) (b : Bool) (g : Session W)
      → let args = text service ∷ bool b ∷ [] in
        private.bus.call s.greeter start_session_when_ready args g
        ≡ replies
            (λ _. [])
            (GdmMock.start_session_when_ready conn service b
              (noted log (called start_session_when_ready args) g))
  pub adds : (g : Session W) → private.add_signal_channel g ≡ g
  pub removes : (g : Session W) → private.remove_signal_channel g ≡ g
  pub sends : (m : Message) (w : W) → conn.send m w ≡ (ok tt, log (sent m) w)
  pub valid_question : conn.is_valid (asking sender) ≡ ok tt
  pub valid_opening : conn.is_valid (opened sender) ≡ ok tt
  pub valid_refusal : conn.is_valid (refused sender) ≡ ok tt

names_question :
    (sender : Text) (body : List Variant)
    → signal_message session_path sender secret_info_query body
      ≡ some (from_session sender verifier "SecretInfoQuery" body)
unfolding signal_message cut_last with_last
names_question sender body = refl

names_opening :
    (sender : Text) (body : List Variant)
    → signal_message session_path sender session_opened body
      ≡ some (from_session sender greeter "SessionOpened" body)
unfolding signal_message cut_last with_last
names_opening sender body = refl

names_refusal :
    (sender : Text) (body : List Variant)
    → signal_message session_path sender problem body
      ≡ some (from_session sender verifier "Problem" body)
unfolding signal_message cut_last with_last
names_refusal sender body = refl

module _ {W : Type 0} (private : PrivateBus (Session W)) (s : Service) (conn : Sender W)
    (sender : Text) (log : Traffic → W → W) (serves : ServesGdm private s conn sender log) where
  emits :
      (name : String) (values : List Variant) (m : Message) (g : Session W)
      → signal_message session_path sender name values ≡ some m
      → conn.is_valid m ≡ ok tt
      → emit conn sender name values g ≡ (ok (ok tt), noted log (sent m) g)
  unfolding emit emit_signal send_valid
  emits name values m g q v = rw q (ground (arith, serves.sends m g.world, v))

  -- The session after the question is sent.
  abbrev asked : Text → Session W → Session W
  asked username g = record {
    world = log (sent (asking sender)) (log (begun username) g.world);
    username = username;
  }

  begin_fails :
      (username : Text) (g : Session W)
      → text_eq username (codes "begin-verification-fails") ≡ true
      → begin_user private s username g ≡ (verdict cannot_begin, noted log (begun username) g)
  unfolding begin_user begin_verification_for_user
  begin_fails username g e =
      ground (arith, e, serves.serves_begin (codes "gdm-password") username g)

  begin_asks :
      (username : Text) (g : Session W)
      → text_eq username (codes "begin-verification-fails") ≡ false
      → begin_user private s username g ≡ (ok tt, asked username g)
  unfolding begin_user begin_verification_for_user set_username
  begin_asks username g e = ground (
    arith,
    e,
    serves.serves_begin (codes "gdm-password") username g,
    emits secret_info_query (gdm_password ∷ text (codes "foobar") ∷ []) (asking sender)
        (record { world = log (begun username) g.world; username = username })
        (names_question sender _) serves.valid_question,
  )

  answer_fails :
      (password : Text) (g : Session W)
      → text_eq password (codes "answer-query-fails") ≡ true
      → wait_for_signals private s password (question ∷ []) g
        ≡ (finished (verdict cannot_answer), noted log (answered password) g)
  unfolding wait_for_signals on_event on_signal on_secret_info_query after_event
      GdmMock.answer_query
  answer_fails password g e =
      ground (arith, e, serves.serves_answer (codes "gdm-password") password g)

  answer_opens :
      (password : Text) (g : Session W)
      → text_eq password (codes "answer-query-fails") ≡ false
      → text_eq g.username (codes "myuser") ≡ true
      → text_eq password (codes "mypassword") ≡ true
      → text_eq g.username (codes "start-session-fails") ≡ false
      → wait_for_signals private s password (heard is_user) g ≡ (
        finished (ok tt),
        noted log session_started
            (noted log (sent (opened sender)) (noted log (answered password) g)),
      )
  unfolding wait_for_signals on_event on_signal on_secret_info_query on_session_opened after_event
      GdmMock.answer_query GdmMock.start_session_when_ready
  answer_opens password g e u q f = ground (
    arith,
    e,
    u,
    q,
    f,
    serves.serves_answer (codes "gdm-password") password g,
    emits session_opened (gdm_password ∷ []) (opened sender) (noted log (answered password) g)
        (names_opening sender _) serves.valid_opening,
    serves.serves_start (codes "gdm-password") true
        (noted log (sent (opened sender)) (noted log (answered password) g)),
  )

  answer_refuses :
      (password : Text) (g : Session W)
      → text_eq password (codes "answer-query-fails") ≡ false
      → (text_eq g.username (codes "myuser") && text_eq password (codes "mypassword")) ≡ false
      → wait_for_signals private s password (heard is_stranger) g ≡ (
        finished (verdict is_stranger),
        noted log (sent (refused sender)) (noted log (answered password) g),
      )
  unfolding wait_for_signals on_event on_signal on_secret_info_query on_problem after_event
      GdmMock.answer_query
  answer_refuses password g e u = ground (
    arith,
    e,
    u,
    serves.serves_answer (codes "gdm-password") password g,
    emits problem (gdm_password ∷ invalid ∷ []) (refused sender) (noted log (answered password) g)
        (names_refusal sender _) serves.valid_refusal,
  )

  loop_closed :
      (username password : Text) (es : List Event) (r : Result Err (Unit {0})) (g h k : Session W)
      → is_empty username ≡ false
      → begin_user private s username g ≡ (ok tt, h)
      → wait_for_signals private s password es h ≡ (finished r, k)
      → launch_desktop_session private s
          (some (record { username = username; password = password }))
          es
          g
        ≡ (finished r, k)
  unfolding launch_desktop_session after_begin cleaned
  loop_closed username password es r g h k n b l =
      rw n (rw (serves.adds g) (rw b (rw l (rw (serves.removes k) refl))))

  Fits-closed :
      (c : Case) (username password : Text) (g : Session W)
      → Fits c username password
      → is_empty username ≡ false
      → launch_desktop_session private s
          (some (record { username = username; password = password }))
          (heard c)
          g
        ≡ (
          finished (verdict c),
          record {
            world = log_all log (said sender username password c) g.world;
            username = named c username g.username;
          },
        )
  unfolding launch_desktop_session after_begin cleaned
  Fits-closed cannot_begin username password g f n =
      let end = noted log (begun username) g in
      rw n (rw (serves.adds g) (rw (begin_fails username g f) (rw (serves.removes end) refl)))
  Fits-closed cannot_answer username password g (b, a) n =
      loop_closed username password _ _ g _ _ n (begin_asks username g b)
        (answer_fails password (asked username g) a)
  Fits-closed is_user username password g (b, a, u, p) n =
      loop_closed username password _ _ g _ _ n (begin_asks username g b)
        (answer_opens password (asked username g) a u p (user_starts username u))
  Fits-closed is_stranger username password g (b, a, u) n =
      loop_closed username password _ _ g _ _ n (begin_asks username g b)
        (answer_refuses password (asked username g) a u)

  -- The launch of a session against the mock, to which the bus passes the calls: for a user name
  -- that is not empty, given the signals `heard` for the case of the name and the password, the
  -- handler ends as `verdict` says of the case, with success only for the one user and password that
  -- the mock knows; and what has passed over the bus is, in order, `said` of the case: the calls of
  -- the service, the one that starts the session last and for that user only, and the messages of
  -- the mock, which are those of the signals heard. The messages that the mock makes are assumed to
  -- be valid and to be sent, and registering for signals to do nothing to it.
  pub launch-closed :
      (username password : Text) (g : Session W)
      → is_empty username ≡ false
      → let c = case_of username password in
        launch_desktop_session private s
          (some (record { username = username; password = password }))
          (heard c)
          g
        ≡ (
          finished (verdict c),
          record {
            world = log_all log (said sender username password c) g.world;
            username = named c username g.username;
          },
        )
  launch-closed username password g n =
      Fits-closed (case_of username password) username password g (case_of-Fits username password) n

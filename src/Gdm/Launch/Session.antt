-- ===== src/Gdm/Launch/Session.antt =====
-- The handler `LaunchDesktopSession` as a whole.
use ubuntu_installer_latest.Base.{
  Text, is_empty, true, All, ◌≡◌, refl, ap, sym, ◌∙◌, some, List, ◌++◌, arith, Err, Result, ok, err,
  panic, Bool-cases, inl, inr, ◌⊎◌,
}
use ubuntu_installer_latest.Gdm.{Service, PrivateBus}
use ubuntu_installer_latest.Gdm.Launch.{
  Event, GdmServiceRequest, Launch, waiting, finished, wait_for_signals, cleaned, after_begin,
  begin_user, launch_desktop_session,
}
use ubuntu_installer_latest.Gdm.Launch.Protocol.{
  asks_nothing, SameAnswers, relevant, Succeeds, wait-after, wait-relevant, wait-secret,
  wait_success,
}

module _ {W : Type 0} (private : PrivateBus W) (s : Service) where
  after_begin-cong :
      (p q : Text) (es fs : List Event) (x : Result Err Unit × W)
      → ((v : W) → wait_for_signals private s p es v ≡ wait_for_signals private s q fs v)
      → after_begin private s p es x ≡ after_begin private s q fs x
  unfolding after_begin
  after_begin-cong p q es fs (ok _, v) h = ap (cleaned private s) (h v)
  after_begin-cong p q es fs (err e, v) h = refl
  after_begin-cong p q es fs (panic, v) h = refl

  pub cleaned_status : (x : Launch × W) → (cleaned private s x).0 ≡ x.0
  unfolding cleaned
  cleaned_status (waiting, v) = refl
  cleaned_status (finished r, v) = refl

  after_begin_success :
      (p : Text) (es : List Event) (x : Result Err Unit × W)
      → (after_begin private s p es x).0 ≡ finished (ok tt)
      → (v : W) × ((wait_for_signals private s p es v).0 ≡ finished (ok tt))
  unfolding after_begin cleaned
  after_begin_success p es (ok _, v) h =
      (v, sym (cleaned_status (wait_for_signals private s p es v)) ∙ h)
  after_begin_success p es (err e, v) h = absurd (cc)
  after_begin_success p es (panic, v) h = absurd (cc)

  after_begin-after :
      (p : Text) (es more : List Event) (x : Result Err Unit × W) (r : Result Err Unit)
      → (after_begin private s p es x).0 ≡ finished r
      → after_begin private s p (es ++ more) x ≡ after_begin private s p es x
  unfolding after_begin
  after_begin-after p es more (ok _, v) r h = ap (cleaned private s) (
      wait-after private s p es more v r
        (sym (cleaned_status (wait_for_signals private s p es v)) ∙ h))
  after_begin-after p es more (err e, v) r h = refl
  after_begin-after p es more (panic, v) r h = refl

  -- Only the loop is given the events.
  launch-cong :
      (username p q : Text) (es fs : List Event) (w : W)
      → ((v : W) → wait_for_signals private s p es v ≡ wait_for_signals private s q fs v)
      → launch_desktop_session private s (some (record { username = username; password = p })) es w
        ≡ launch_desktop_session private s
            (some (record { username = username; password = q }))
            fs
            w
  unfolding launch_desktop_session
  launch-cong username p q es fs w h =
      rw (
        after_begin-cong p q es fs (begin_user private s username (private.add_signal_channel w)) h)

  -- Signals that the handler does not know change nothing: it does what it would do without them.
  pub launch-relevant :
      (req : GdmServiceRequest) (es : List Event) (w : W)
      → launch_desktop_session private s (some req) (relevant es) w
        ≡ launch_desktop_session private s (some req) es w
  launch-relevant req es w =
      launch-cong req.username req.password req.password (relevant es) es w
        (wait-relevant private s req.password es)

  -- The password goes nowhere but into AnswerQuery on the user verifier, at a question: for two
  -- passwords, the handler ends in the same answer and state, over events each of which asks for no
  -- secret unless AnswerQuery does the same with either password.
  pub launch-secret :
      (username p q : Text) (es : List Event) (w : W)
      → All (λ e. (asks_nothing e ≡ true) ⊎ SameAnswers private s p q) es
      → launch_desktop_session private s (some (record { username = username; password = p })) es w
        ≡ launch_desktop_session private s
            (some (record { username = username; password = q }))
            es
            w
  launch-secret username p q es w h =
      launch-cong username p q es es w (λ v. wait-secret private s p q es v h)

  -- A launch succeeds only if the session was announced as open, with a text, and no problem, end of
  -- the context or closed channel came before that.
  pub launch-Succeeds :
      (req : GdmServiceRequest) (es : List Event) (w : W)
      → (launch_desktop_session private s (some req) es w).0 ≡ finished (ok tt)
      → Succeeds es
  unfolding launch_desktop_session
  launch-Succeeds req es w h = elim (Bool-cases (is_empty req.username)) [
    | inl e ↦ absurd (ground (arith, e, h))
    | inr e ↦
        let begun = begin_user private s req.username (private.add_signal_channel w) in
        let (v, success) = after_begin_success req.password es begun (ground (arith, e, h)) in
        wait_success private s req.password es v success
  ]

  -- Once the handler has returned, it takes no further events.
  launch-after :
      (req : GdmServiceRequest) (es more : List Event) (w : W) (r : Result Err Unit)
      → (launch_desktop_session private s (some req) es w).0 ≡ finished r
      → launch_desktop_session private s (some req) (es ++ more) w
        ≡ launch_desktop_session private s (some req) es w
  unfolding launch_desktop_session
  launch-after req es more w r h = elim (Bool-cases (is_empty req.username)) [
    | inl e ↦ rw e
    | inr e ↦
        let begun = begin_user private s req.username (private.add_signal_channel w) in
        rw e (after_begin-after req.password es more begun r (ground (arith, e, h)))
  ]

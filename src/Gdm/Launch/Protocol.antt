-- ===== src/Gdm/Launch/Protocol.antt =====
-- What the loop of `LaunchDesktopSession` does with the signals that it receives.
use ubuntu_installer_latest.Base.{
  Text, str_eq, Bool, true, false, not, ◌&&◌, ◌||◌, All, ◌≡◌, refl, ap, sym, ◌∙◌, List, [], ◌∷◌,
  ◌++◌, if◌then◌else◌, inl, inr, Bool-cases, arith, Err, Result, ok, err, panic, Variant, text,
  uint64, int32, bool, texts, other, ◌⊎◌,
}
use ubuntu_installer_latest.Gdm.{Service, PrivateBus}
use ubuntu_installer_latest.Gdm.Launch.{
  Signal, Event, context_done, received, channel_closed, problem, secret_info_query, session_opened,
  answer_query, Next, again, return, Launch, finished, on_problem, on_secret_info_query,
  on_session_opened, on_signal, on_event, after_event, wait_for_signals,
}

-- Not a question for a secret.
abbrev pub asks_nothing : Event → Bool
asks_nothing (received s) = str_eq s.name problem || not (str_eq s.name secret_info_query)
asks_nothing _ = true

-- An event that the loop acts on.
abbrev pub is_relevant : Event → Bool
is_relevant (received s) =
    str_eq s.name problem || (str_eq s.name secret_info_query || str_eq s.name session_opened)
is_relevant _ = true

-- An event after which the loop can go on.
abbrev pub stays : Event → Bool
stays (received s) =
    not (str_eq s.name problem)
    && (str_eq s.name secret_info_query || not (str_eq s.name session_opened))
stays _ = false

unfoldable pub relevant : List Event → List Event
relevant [] = []
relevant (e ∷ es) = let rest = relevant es in if is_relevant e then e ∷ rest else rest

-- The announcement of an open session, with its first value.
abbrev pub Opens : Text → Event → Type 0
Opens msg (received s) =
    (rest : List Variant) × (str_eq s.name session_opened ≡ true) × (s.body ≡ text msg ∷ rest)
Opens msg _ = ⊥

-- The events of a loop that ends in a started session.
abbrev pub Succeeds : List Event → Type 0
Succeeds es =
    (pre : List Event) × (e : Event) × (post : List Event) × (msg : Text) × (es ≡ pre ++ (e ∷ post))
    × Opens msg e
    × All (λ x. stays x ≡ true) pre

again_return : again ≡ return → ⊥
again_return h = cc

module _ {W : Type 0} where
  -- Two rests of the loop are told apart only after an event that leads to another round.
  after_event-cong :
      (f g : W → Launch × W) (x : Result Err Next × W)
      → ((v : W) → x ≡ (ok again, v) → f v ≡ g v)
      → after_event f x ≡ after_event g x
  unfolding after_event
  after_event-cong f g (ok again, v) h = h v refl
  after_event-cong f g (ok return, v) h = refl
  after_event-cong f g (err e, v) h = refl
  after_event-cong f g (panic, v) h = refl

  after_event-again :
      (f : W → Launch × W) (x : Result Err Next × W) (v : W)
      → x ≡ (ok again, v)
      → after_event f x ≡ f v
  unfolding after_event
  after_event-again f x v h = rw h

module _ {W : Type 0} (private : PrivateBus W) (s : Service) where
  module _ (p : Text) where
    pub wait-after :
        (es more : List Event) (w : W) (r : Result Err Unit)
        → (wait_for_signals private s p es w).0 ≡ finished r
        → wait_for_signals private s p (es ++ more) w ≡ wait_for_signals private s p es w
    unfolding wait_for_signals
    wait-after [] more w r h = absurd (cc)
    wait-after (e ∷ es) more w r h =
        after_event-cong (wait_for_signals private s p (es ++ more))
          (wait_for_signals private s p es) (on_event private s p e w)
          λ v a. wait-after es more v r (
            ap (λ (t : Launch × W). t.0)
              (sym (after_event-again (wait_for_signals private s p es) _ v a))
            ∙ h)

    irrelevant_event :
        (e : Event) (w : W) → is_relevant e ≡ false → on_event private s p e w ≡ (ok again, w)
    unfolding on_event on_signal
    irrelevant_event (received x) w h = ground arith
    irrelevant_event context_done w h = absurd (cc)
    irrelevant_event channel_closed w h = absurd (cc)

    pub wait-relevant :
        (es : List Event) (w : W)
        → wait_for_signals private s p (relevant es) w ≡ wait_for_signals private s p es w
    unfolding wait_for_signals relevant
    wait-relevant [] w = refl
    wait-relevant (e ∷ es) w = elim (Bool-cases (is_relevant e)) [
      | inl r ↦ rw r (
          after_event-cong (wait_for_signals private s p (relevant es))
            (wait_for_signals private s p es) (on_event private s p e w)
            (λ v _. wait-relevant es v))
      | inr r ↦ rw r (
          wait-relevant es w
          ∙ sym (after_event-again (wait_for_signals private s p es) _ w (irrelevant_event e w r)))
    ]

  -- AnswerQuery on the user verifier does the same for two passwords.
  abbrev pub SameAnswers : Text → Text → Type 0
  SameAnswers p q =
      (msg : Text) (w : W)
      → private.bus.call s.user_verifier answer_query (text msg ∷ text p ∷ []) w
        ≡ private.bus.call s.user_verifier answer_query (text msg ∷ text q ∷ []) w

  query_secret :
      (p q : Text) (body : List Variant) (w : W)
      → SameAnswers p q
      → on_secret_info_query private s p body w ≡ on_secret_info_query private s q body w
  unfolding on_secret_info_query
  query_secret p q [] w h = refl
  query_secret p q (text msg ∷ rest) w h = rw (h msg w) refl
  query_secret p q (uint64 _ ∷ rest) w h = refl
  query_secret p q (int32 _ ∷ rest) w h = refl
  query_secret p q (bool _ ∷ rest) w h = refl
  query_secret p q (texts _ ∷ rest) w h = refl
  query_secret p q (other ∷ rest) w h = refl

  -- The answer of the switch depends on the password only by AnswerQuery, at a question.
  on_event_secret :
      (p q : Text) (e : Event) (w : W)
      → (asks_nothing e ≡ true) ⊎ SameAnswers p q
      → on_event private s p e w ≡ on_event private s q e w
  unfolding on_event on_signal on_problem on_session_opened
  on_event_secret p q (received x) w h = elim (Bool-cases (str_eq x.name problem)) [
    | inl e ↦ rw e refl
    | inr e ↦ elim (Bool-cases (str_eq x.name secret_info_query)) [
      | inl k ↦ elim h [
        | inl n ↦ absurd (ground (arith, n, e, k))
        | inr same ↦ rw (e, k) (query_secret p q x.body w same)
      ]
      | inr k ↦ rw (e, k) refl
    ]
  ]
  on_event_secret p q context_done w h = refl
  on_event_secret p q channel_closed w h = refl

  pub wait-secret :
      (p q : Text) (es : List Event) (w : W)
      → All (λ e. (asks_nothing e ≡ true) ⊎ SameAnswers p q) es
      → wait_for_signals private s p es w ≡ wait_for_signals private s q es w
  unfolding wait_for_signals after_event
  wait-secret p q [] w h = refl
  wait-secret p q (e ∷ es) w h =
      ap (after_event (wait_for_signals private s p es)) (on_event_secret p q e w h.0)
      ∙ after_event-cong (wait_for_signals private s p es) (wait_for_signals private s q es)
          (on_event private s q e w) (λ v _. wait-secret p q es v h.1)

  problem_ends :
      (p : Text) (body : List Variant) (n : Next) (w v : W)
      → on_problem private s p body w ≡ (ok n, v)
      → ⊥
  unfolding on_problem
  problem_ends p [] n w v h = cc
  problem_ends p (a ∷ []) n w v h = cc
  problem_ends p (a ∷ b ∷ body) n w v h = cc

  query_stays :
      (p : Text) (body : List Variant) (w v : W)
      → on_secret_info_query private s p body w ≡ (ok return, v)
      → ⊥
  unfolding on_secret_info_query
  query_stays p body w v h = ground arith

  opened_returns :
      (p : Text) (body : List Variant) (n : Next) (w v : W)
      → on_session_opened private s p body w ≡ (ok n, v)
      → (n ≡ return) × ((msg : Text) × (rest : List Variant) × (body ≡ text msg ∷ rest))
  unfolding on_session_opened
  opened_returns p [] n w v h = absurd (cc)
  opened_returns p (text msg ∷ rest) n w v h = (ground arith, (msg, rest, refl))
  opened_returns p (_ ∷ rest) n w v h = absurd (cc)

  on_signal_return :
      (p : Text) (x : Signal) (w v : W)
      → on_signal private s p x w ≡ (ok return, v)
      → (str_eq x.name session_opened ≡ true)
        × (on_session_opened private s p x.body w ≡ (ok return, v))
  unfolding on_signal
  on_signal_return p x w v h =
      ground (arith, problem_ends p x.body return w v, query_stays p x.body w v)

  on_event_return :
      (p : Text) (e : Event) (w v : W)
      → on_event private s p e w ≡ (ok return, v)
      → (msg : Text) × Opens msg e
  unfolding on_event
  on_event_return p (received x) w v h =
      let (named, called) = on_signal_return p x w v h in
      let (_, (msg, rest, body)) = opened_returns p x.body return w v called in
      (msg, (rest, named, body))
  on_event_return p context_done w v h = absurd (cc)
  on_event_return p channel_closed w v h = absurd (cc)

  opened_again :
      (p : Text) (body : List Variant) (w v : W)
      → on_session_opened private s p body w ≡ (ok again, v)
      → ⊥
  opened_again p body w v h = absurd (again_return (opened_returns p body again w v h).0)

  on_event_again :
      (p : Text) (e : Event) (w v : W) → on_event private s p e w ≡ (ok again, v) → stays e ≡ true
  unfolding on_event on_signal
  on_event_again p (received x) w v h =
      ground (arith, problem_ends p x.body again w v, opened_again p x.body w v)
  on_event_again p context_done w v h = absurd (cc)
  on_event_again p channel_closed w v h = absurd (cc)

  pub wait_success :
      (p : Text) (es : List Event) (w : W)
      → (wait_for_signals private s p es w).0 ≡ finished (ok tt)
      → Succeeds es
  unfolding wait_for_signals after_event
  wait_success p [] w h = absurd (cc)
  wait_success p (e ∷ es) w h = go (λ v. wait_success p es v) (on_event private s p e w) refl h
    where
      go :
          ((v : W) → (wait_for_signals private s p es v).0 ≡ finished (ok tt) → Succeeds es)
          → (x : Result Err Next × W) → on_event private s p e w ≡ x
          → (after_event (wait_for_signals private s p es) x).0 ≡ finished (ok tt)
          → Succeeds (e ∷ es)
      go ih (ok again, v) q k =
          let (pre, e', post, msg, split, opens, stay) = ih v k in
          (e ∷ pre, e', post, msg, ap (λ l. e ∷ l) split, opens, (on_event_again p e w v q, stay))
      go ih (ok return, v) q k =
          let (msg, opens) = on_event_return p e w v q in ([], e, es, msg, refl, opens, tt)
      go ih (err x, v) q k = absurd (cc)
      go ih (panic, v) q k = absurd (cc)

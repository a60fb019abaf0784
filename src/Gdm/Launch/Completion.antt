-- ===== src/Gdm/Launch/Completion.antt =====
-- When `LaunchDesktopSession` starts the session.
use ubuntu_installer_latest.Base.{
  Text, str_eq, is_empty, true, false, All, ◌≡◌, refl, ap, some, List, [], ◌∷◌, ◌++◌, ◌⊎◌, inl, inr,
  Bool-cases, arith, ok, Variant, text, bool, codes, String, is_ok,
}
use ubuntu_installer_latest.Gdm.{Service, PrivateBus}
use ubuntu_installer_latest.System.{Object}
use ubuntu_installer_latest.Gdm.Launch.{
  Event, context_done, received, channel_closed, GdmServiceRequest, secret_info_query,
  session_opened, again, finished, on_secret_info_query, on_session_opened, on_signal, on_event,
  after_event, wait_for_signals, after_begin, answer_query, begin_verification,
  start_session_when_ready, begin_user, launch_desktop_session, cleaned,
}
use ubuntu_installer_latest.Gdm.Launch.Protocol.{stays}

-- An event after which the loop goes on: a question with a text, or a signal that it does not know.
abbrev pub GoesOn : Event → Type 0
GoesOn (received s) =
    (stays (received s) ≡ true)
    × ((str_eq s.name secret_info_query ≡ false)
        ⊎ (t : Text) × (rest : List Variant) × (s.body ≡ text t ∷ rest))
GoesOn _ = ⊥

-- The announcement of the open session.
abbrev pub opened : Text → List Variant → Event
opened msg rest = received (record { name = session_opened; body = text msg ∷ rest })

module _ {W : Type 0} (private : PrivateBus W) (s : Service)
    (calls : (o : Object) (m : String) (args : List Variant) (w : W)
      → is_ok (private.bus.call o m args w).0 ≡ true) where
  secret_goes_on :
      (p t : Text) (rest : List Variant) (w : W)
      → (v : W) × (on_secret_info_query private s p (text t ∷ rest) w ≡ (ok again, v))
  unfolding on_secret_info_query
  secret_goes_on p t rest w =
      let args = text t ∷ text p ∷ [] in
      (
        (private.bus.call s.user_verifier answer_query args w).1,
        ground (arith, calls s.user_verifier answer_query args w),
      )

  event-GoesOn :
      (p : Text) (e : Event) (w : W)
      → GoesOn e
      → (v : W) × (on_event private s p e w ≡ (ok again, v))
  unfolding on_event on_signal
  event-GoesOn p (received x) w (st, inl n) = (w, ground arith)
  event-GoesOn p (received x) w (st, inr (t, rest, b)) =
      elim (Bool-cases (str_eq x.name secret_info_query)) [
        | inl q ↦
            let (v, e) = secret_goes_on p t rest w in
            (v, ground (arith, q, e, ap (λ y. on_secret_info_query private s p y w) b))
        | inr q ↦ (w, ground arith)
      ]
  event-GoesOn p context_done w h = absurd h
  event-GoesOn p channel_closed w h = absurd h

  -- What the call of StartSessionWhenReady leaves.
  abbrev pub started : Text → W → W
  started msg v =
      (private.bus.call s.greeter start_session_when_ready (text msg ∷ bool true ∷ []) v).1

  wait_completes :
      (p msg : Text) (rest : List Variant) (pre post : List Event) (w : W)
      → All GoesOn pre
      → (v : W) × (wait_for_signals private s p (pre ++ (opened msg rest ∷ post)) w
          ≡ (finished (ok tt), started msg v))
  unfolding wait_for_signals after_event on_event on_signal on_session_opened
  wait_completes p msg rest [] post w h =
      (w, ground (arith, calls s.greeter start_session_when_ready (text msg ∷ bool true ∷ []) w))
  wait_completes p msg rest (e ∷ pre) post w (g, h) =
      let (v, q) = event-GoesOn p e w g in rw q (wait_completes p msg rest pre post v h)

  begin_completes :
      (username : Text) (w : W) → (v : W) × (begin_user private s username w ≡ (ok tt, v))
  unfolding begin_user
  begin_completes username w =
      let args = text (codes "gdm-password") ∷ text username ∷ [] in
      (
        (private.bus.call s.user_verifier begin_verification args w).1,
        ground (arith, calls s.user_verifier begin_verification args w),
      )

  -- The launch is completed: where the calls on the private bus succeed and a user name is given, and
  -- a session is announced as open after signals that the handler answers or does not know, the
  -- handler returns no error, and the last that it has done on the bus is the call of
  -- StartSessionWhenReady for the announced service, before it stops to listen for signals.
  pub launch_completes :
      (req : GdmServiceRequest) (msg : Text) (rest : List Variant) (pre post : List Event) (w : W)
      → is_empty req.username ≡ false
      → All GoesOn pre
      → (v : W) × (launch_desktop_session private s (some req) (pre ++ (opened msg rest ∷ post)) w
          ≡ (finished (ok tt), private.remove_signal_channel (started msg v)))
  unfolding launch_desktop_session after_begin cleaned
  launch_completes req msg rest pre post w n h =
      let (v, e) = begin_completes req.username (private.add_signal_channel w) in
      let (u, q) = wait_completes req.password msg rest pre post v h in (u, rw (n, e, q) refl)

-- ===== src/Gdm/Connection.antt =====
-- The connection to the private bus of a session, which `New` dials and `Close` closes (gdm.go).
use ubuntu_installer_latest.Base.{
  Bool, ◌&&◌, not, pure, true, false, ◌≡◌, arith, String, List, [], Err, Result, ok, err, panic,
  ◌∷◌, ◌∙◌, ◌⊎◌, text, uint64, int32, bool, texts, other, Run, Variant, Empty, is_ok, index, zero,
  as_text, internal, status_message, or_status, catch, apply_options, Text, ◌>>=◌, ◌>>◌,
}
use ubuntu_installer_latest.System.{Object, Bus, ping}
use ubuntu_installer_latest.Gdm.{PrivateBus, Service, default_service, open_session, new}
use ubuntu_installer_latest.Gdm.Launch.{close}

-- The connection is open once it was dialled without an error, until it is closed.
pub record ConnectionLaws {W : Type 0} (bus : Bus W) (private : PrivateBus W) : Type 0 where
  pub is_open : W → Bool
  pub dial_ok :
      (a : Text) (w : W) → is_ok (private.dial a w).0 ≡ true → is_open (private.dial a w).1 ≡ true
  pub dial_err :
      (a : Text) (w : W)
      → is_ok (private.dial a w).0 ≡ false
      → is_open (private.dial a w).1 ≡ is_open w
  pub call-open :
      (o : Object) (m : String) (args : List Variant) (w : W)
      → is_open (bus.call o m args w).1 ≡ is_open w
  pub private-open :
      (o : Object) (m : String) (args : List Variant) (w : W)
      → is_open (private.bus.call o m args w).1 ≡ is_open w
  pub auth-open : (w : W) → is_open (private.auth w).1 ≡ is_open w
  pub hello-open : (w : W) → is_open (private.hello w).1 ≡ is_open w
  pub close-open : (w : W) → is_open (private.close_connection w) ≡ false

-- The service that `New` without options returns.
abbrev pub made_service : Service
made_service = record default_service { connected = true }

module _ {W : Type 0} (bus : Bus W) (private : PrivateBus W) where
  unfoldable pub dial_address : Variant → Run W Err Empty
  dial_address first = do
    address ← as_text (status_message internal "failed to get bus address from Manager") first
    or_status internal "failed to connect to session bus: %s" (private.dial address)

  -- What `New` does up to the dialling, without options.
  unfoldable pub dial_session : Run W Err Empty
  dial_session = do
    body ←
        or_status internal "failed to call Manager: %s"
          (bus.call default_service.display_manager open_session [])
    first ← index body zero
    dial_address first

  -- `New` after the dialling.
  unfoldable pub after_dial : Run W Err Service
  after_dial = do
    or_status internal "failed to authenticate: %s" private.auth
    catch {F = Err} private.hello
    or_status internal "failed to ping UserVerifier: %s"
        (private.bus.call default_service.user_verifier ping [])
    or_status internal "failed to ping Greeter: %s"
        (private.bus.call default_service.greeter ping [])
    pure made_service

  new-dial_session : (w : W) → new bus private [] w ≡ (dial_session >> after_dial) w
  unfolding new dial_session dial_address after_dial apply_options
  new-dial_session w = ground arith

  module _ (laws : ConnectionLaws bus private) where
    -- The connection is open exactly if the dialling has succeeded.
    abbrev OpensIf : Run W Err Empty → Type 0
    OpensIf m = (w : W) → laws.is_open w ≡ false → laws.is_open (m w).1 ≡ is_ok (m w).0

    dial_address-OpensIf : (first : Variant) → OpensIf (dial_address first)
    unfolding dial_address
    dial_address-OpensIf (text a) w h = ground (arith, h, laws.dial_ok a w, laws.dial_err a w)
    dial_address-OpensIf (uint64 _) w h = h
    dial_address-OpensIf (int32 _) w h = h
    dial_address-OpensIf (bool _) w h = h
    dial_address-OpensIf (texts _) w h = h
    dial_address-OpensIf other w h = h

    body-OpensIf : (body : List Variant) → OpensIf (index body zero >>= dial_address)
    body-OpensIf [] w h = h
    body-OpensIf (first ∷ _) w h = dial_address-OpensIf first w h

    dial_session-OpensIf : OpensIf dial_session
    unfolding dial_session
    dial_session-OpensIf w h =
        let called = bus.call default_service.display_manager open_session [] w in
        go called.0 called.1 (laws.call-open default_service.display_manager open_session [] w ∙ h)
      where
        go :
            (r : Result Err (List Variant)) (v : W)
            → laws.is_open v ≡ false
            → let end =
                (or_status internal "failed to call Manager: %s" (λ _. (r, v)) >>= λ body.
                index body zero >>= dial_address)
                  w in
              laws.is_open end.1 ≡ is_ok end.0
        go (ok body) v e = body-OpensIf body v e
        go (err x) v e = e
        go panic v e = e

    after_dial-open : (w : W) → laws.is_open (after_dial w).1 ≡ laws.is_open w
    unfolding after_dial
    after_dial-open w =
        let authenticated = (private.auth w).1 in
        let greeted = (private.hello authenticated).1 in
        let pinged = (private.bus.call default_service.user_verifier ping [] greeted).1 in
        ground (
          arith,
          laws.auth-open w,
          laws.hello-open authenticated,
          laws.private-open default_service.user_verifier ping [] greeted,
          laws.private-open default_service.greeter ping [] pinged,
        )

    after_dial-made :
        (w : W) → ((after_dial w).0 ≡ ok made_service) ⊎ (is_ok (after_dial w).0 ≡ false)
    unfolding after_dial
    after_dial-made w = ground arith

    -- `New` without options, where no connection is open before: the connection to the private bus is
    -- open at the end exactly if it was dialled without an error, and so also where `New` then
    -- returns an error, with which it gives no service to close; a `New` that returns a service has
    -- an open connection; and `Close` of that service closes it. The connection is assumed to be open
    -- from a dialling without an error until it is closed.
    pub new-close-open :
        (w : W)
        → laws.is_open w ≡ false
        → let end = new bus private [] w in
          (laws.is_open end.1 ≡ is_ok (dial_session w).0)
          × ((is_ok end.0 && not (laws.is_open end.1)) ≡ false)
          × ((end.0 ≡ ok made_service) ⊎ (is_ok end.0 ≡ false))
          × (laws.is_open (close private made_service end.1) ≡ false)
    unfolding close
    new-close-open w h =
        let v = (dial_session w).1 in
        ground (
          arith,
          new-dial_session w,
          dial_session-OpensIf w h,
          after_dial-open v,
          after_dial-made v,
          laws.close-open (new bus private [] w).1,
        )

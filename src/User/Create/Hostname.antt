-- ===== src/User/Create/Hostname.antt =====
-- What `CreateUser` leaves of the static hostname.
use ubuntu_installer_latest.Base.{
  ℕ, Text, text_eq→eq, true, false, ◌≡◌, refl, Option, none, some, [], ◌∷◌, arith,
}
use ubuntu_installer_latest.Base.{Err, Result, ok, err, panic, text, bool, uint64, is_ok}
use ubuntu_installer_latest.System.{Bus, Crypt}
use ubuntu_installer_latest.User.Service.{Service}
use ubuntu_installer_latest.User.Create.{
  CreateUserRequest, Failure, create_user, create_from, create_body, deferred, after, rollback,
  restore, on_current, delete_user, set_static_hostname, static_hostname,
}
use ubuntu_installer_latest.User.Create.Services.{HostnameLaws}

module _ {W : Type 0} (bus : Bus W) (s : Service) (laws : HostnameLaws bus s) where
  host-delete_user : (n : ℕ) (w : W) → laws.host (delete_user bus s n w).1 ≡ laws.host w
  unfolding delete_user
  host-delete_user n w = ground (arith, laws.delete-host (uint64 n ∷ []) w)

  module _ (initial : Text)
      (restorable : (w : W)
        → is_ok (bus.call s.hostname set_static_hostname (text initial ∷ bool false ∷ []) w).0
          ≡ true) where
    host-restore : (n : ℕ) (w : W) → laws.host (restore bus s initial n (laws.host w) w).1 ≡ initial
    unfolding restore
    host-restore n w = ground (
      arith,
      text_eq→eq (laws.host w) initial,
      restorable w,
      laws.set_host initial w,
      host-delete_user n w,
      host-delete_user n
          (bus.call s.hostname set_static_hostname (text initial ∷ bool false ∷ []) w).1,
    )

    host-rollback : (n : ℕ) (w : W) → laws.host (rollback bus s initial n w).1 ≡ initial
    unfolding rollback on_current
    host-rollback n w =
        let v = (bus.get_property s.hostname static_hostname w).1 in
        ground (arith, laws.get_host w, laws.get-host w, host-restore n v)

    pub host-deferred :
        (r : Result Failure Unit × W) {e : Err}
        → (deferred bus s initial r).0 ≡ err e
        → laws.host (deferred bus s initial r).1 ≡ initial
    unfolding deferred after
    host-deferred (ok _, w) h = cc
    host-deferred (err f, w) h = ground (arith, host-rollback f.user_id w)
    host-deferred (panic, w) h = cc

  -- If `CreateUser` returns an error then the static hostname is at the end what it was at the
  -- start, whatever the calls in between have done to it. The hypotheses are that hostnamed keeps
  -- its contract, and that it does not refuse the hostname which it had at the start.
  pub create_user-restores-host :
      (c : Crypt W) (req : Option CreateUserRequest) (w : W) {e : Err}
      → ((v : W)
          → is_ok
              (bus.call s.hostname set_static_hostname (text (laws.host w) ∷ bool false ∷ []) v).0
            ≡ true)
      → (create_user bus s c req w).0 ≡ err e
      → laws.host (create_user bus s c req w).1 ≡ laws.host w
  unfolding create_user create_from
  create_user-restores-host c none w restorable h = refl
  create_user-restores-host c (some req) w {e} restorable h =
      let v = (bus.get_property s.hostname static_hostname w).1 in
      ground (
        arith,
        laws.get_host w,
        laws.get-host w,
        host-deferred (laws.host w) restorable (create_body bus s c req.is_admin req.user v)
            {e = e},
      )

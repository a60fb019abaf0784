-- ===== src/User/Create/Overlap.antt =====
-- Two calls of `CreateUser` that overlap: gRPC runs the handlers of two requests at the same time, and
-- the service has no lock.
use ubuntu_installer_latest.Base.{true, false, ◌≡◌, ◌≢◌, Option, some, List, [], ◌∷◌, arith, Bool}
use ubuntu_installer_latest.Base.{
  Err, Result, ok, err, panic, Run, Variant, text, bool, internal, is_ok, lift, status_message,
  or_status, as_text, ◌>>=◌,
}
use ubuntu_installer_latest.System.{Bus, Crypt}
use ubuntu_installer_latest.User.Service.{Service}
use ubuntu_installer_latest.User.Create.{
  Account, CreateUserRequest, create_user, create_from, create_body, static_hostname,
  set_static_hostname,
}
use ubuntu_installer_latest.User.Create.Services.{HostnameLaws, AccountsLaws}
use ubuntu_installer_latest.User.Create.Hostname.{host-deferred}
use ubuntu_installer_latest.User.Create.Outcomes.{request, create_user-success}

module _ {W : Type 0} (bus : Bus W) (s : Service) (c : Crypt W) where
  -- What a call does once it has the answer to its reading of the static hostname.
  unfoldable pub resume : CreateUserRequest → Result Err Variant → Run W Err Unit
  resume req read = do
    property ← or_status internal "failed to get current hostname: %v" (lift read)
    initial ←
        as_text (status_message internal "failed to convert current hostname to string") property
    create_from bus s c req initial

  create_user-resume :
      (req : CreateUserRequest) (w : W)
      → let (read, v) = bus.get_property s.hostname static_hostname w in
        create_user bus s c (some req) w ≡ resume req read v
  unfolding create_user resume
  create_user-resume req w = ground arith

  -- A second call runs from its start to its end once the first has read the static hostname.
  abbrev pub second_end : Option CreateUserRequest → W → Result Err Unit × W
  second_end second w = create_user bus s c second (bus.get_property s.hostname static_hostname w).1

  -- The first goes on from there.
  abbrev pub first_end : CreateUserRequest → Option CreateUserRequest → W → Result Err Unit × W
  first_end first second w =
      resume first (bus.get_property s.hostname static_hostname w).0 (second_end second w).1

  module _ (hosts : HostnameLaws bus s) where
    resume-restores :
        (req : CreateUserRequest) (w v : W) {e : Err}
        → ((x : W)
            → is_ok
                (bus.call s.hostname set_static_hostname
                  (text (hosts.host w) ∷ bool false ∷ [])
                  x).0
              ≡ true)
        → (resume req (bus.get_property s.hostname static_hostname w).0 v).0 ≡ err e
        → hosts.host (resume req (bus.get_property s.hostname static_hostname w).0 v).1
          ≡ hosts.host w
    unfolding resume create_from
    resume-restores req w v {e} restorable h = ground (
      arith,
      hosts.get_host w,
      host-deferred bus s hosts (hosts.host w) restorable
          (create_body bus s c req.is_admin req.user v) {e = e},
    )

    -- A hostname is lost: a call of `CreateUser` is a reading of the static hostname and what it does
    -- then. Where a second call, in between, returns no error, it has set the hostname that it was
    -- asked for; and where the first then returns an error, the static hostname is at the end that
    -- which the first has read, before the second. AccountsService and hostnamed are assumed to keep
    -- their contracts, hostnamed not to refuse the hostname that was read, and SetStaticHostname not
    -- to panic.
    pub overlapped-loses_host :
        (laws : AccountsLaws bus s c)
        (set_returns : (args : List Variant) (w : W)
          → (bus.call s.hostname set_static_hostname args w).0 ≢ panic)
        (first : CreateUserRequest) (is_admin : Bool) (u : Account) (w : W) {e : Err}
        → ((x : W)
            → is_ok
                (bus.call s.hostname set_static_hostname
                  (text (hosts.host w) ∷ bool false ∷ [])
                  x).0
              ≡ true)
        → (second_end (request is_admin u) w).0 ≡ ok tt
        → (first_end first (request is_admin u) w).0 ≡ err e
        → (create_user bus s c (some first) w
            ≡ resume first
                (bus.get_property s.hostname static_hostname w).0
                (bus.get_property s.hostname static_hostname w).1)
          × (hosts.host (second_end (request is_admin u) w).1 ≡ u.hostname)
          × (hosts.host (first_end first (request is_admin u) w).1 ≡ hosts.host w)
    overlapped-loses_host laws set_returns first is_admin u w {e} restorable done failed =
        let v = (bus.get_property s.hostname static_hostname w).1 in
        (
          create_user-resume first w,
          (create_user-success bus s c laws hosts set_returns is_admin u v done).2,
          resume-restores first w (second_end (request is_admin u) w).1 {e = e} restorable failed,
        )

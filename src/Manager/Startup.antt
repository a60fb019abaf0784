-- ===== src/Manager/Startup.antt =====
-- When the manager starts, and what it then serves.
use ubuntu_installer_latest.Base.{
  Bool, true, false, ◌≡◌, refl, Option, none, some, List, [], ◌∷◌, arith, Err, Result, ok, err,
  panic, is_ok, is_ok_value, apply_options, String, if◌then◌else◌,
}
use ubuntu_installer_latest.Accessibility.{join}
use ubuntu_installer_latest.Telemetry
use ubuntu_installer_latest.Gdm
use ubuntu_installer_latest.User
use ubuntu_installer_latest.Locale
use ubuntu_installer_latest.Keyboard
use ubuntu_installer_latest.Privacy
use ubuntu_installer_latest.Timezone
use ubuntu_installer_latest.Accessibility
use ubuntu_installer_latest.Manager.{
  Surroundings, Manager, gather, to_option, assemble, unless_errs, Made, make_all, all_errs, finish,
  new_manager, Registered, user, locale, keyboard, privacy, timezone, accessibility, telemetry, gdm,
  registered_gdm, register_grpc_services,
}

abbrev pub not_failed : {A : Type 0} → Result Err A → Bool
not_failed (err _) = false
not_failed _ = true

gather_failed :
    {A : Type 0} (format : String) (r : Result Err A) (errs : Option Err)
    → gather format r errs ≡ none
    → (not_failed r ≡ true) × (errs ≡ none)
unfolding gather join
gather_failed format (ok a) errs h = (refl, h)
gather_failed format panic errs h = (refl, h)
gather_failed format (err e) none h = absurd (cc)
gather_failed format (err e) (some x) h = absurd (cc)

gather-not_failed :
    {A : Type 0} (format : String) (r : Result Err A) (errs : Option Err)
    → not_failed r ≡ true
    → gather format r errs ≡ errs
unfolding gather
gather-not_failed format (ok a) errs h = refl
gather-not_failed format panic errs h = refl
gather-not_failed format (err e) errs h = absurd (cc)

made_not_failed : {A : Type 0} (r : Result Err A) → is_ok r ≡ true → not_failed r ≡ true
made_not_failed (ok a) h = refl
made_not_failed (err e) h = absurd (cc)
made_not_failed panic h = absurd (cc)

module _ {W V : Type 0} (around : Surroundings W V) where
  -- The bus is connected, and every service but GDM is there.
  pub record AllMade (m : Made around) : Type 0 where
    pub connected : not_failed m.connected ≡ true
    pub user_made : is_ok m.user ≡ true
    pub locale_made : is_ok m.locale ≡ true
    pub keyboard_made : is_ok m.keyboard ≡ true
    pub privacy_made : is_ok m.privacy ≡ true
    pub timezone_made : is_ok m.timezone ≡ true
    pub accessibility_made : is_ok m.accessibility ≡ true

  AllMade-all_errs : (m : Made around) → AllMade m → all_errs around m ≡ none
  unfolding all_errs
  AllMade-all_errs m a = rw (
    gather-not_failed "failed to connect to system bus: %s" m.connected none a.connected,
    gather-not_failed "failed to create user service: %s" m.user none
        (made_not_failed m.user a.user_made),
    gather-not_failed "failed to create locale service: %s" m.locale none
        (made_not_failed m.locale a.locale_made),
    gather-not_failed "failed to create keyboard service: %s" m.keyboard none
        (made_not_failed m.keyboard a.keyboard_made),
    gather-not_failed "failed to create privacy service: %s" m.privacy none
        (made_not_failed m.privacy a.privacy_made),
    gather-not_failed "failed to create timezone service: %s" m.timezone none
        (made_not_failed m.timezone a.timezone_made),
    gather-not_failed "failed to create accessibility service: %s" m.accessibility none
        (made_not_failed m.accessibility a.accessibility_made),
  )

  all_errs-connected : (m : Made around) → all_errs around m ≡ none → not_failed m.connected ≡ true
  unfolding all_errs
  all_errs-connected m h =
      let (_, a) = gather_failed "failed to create accessibility service: %s" m.accessibility _ h in
      let (_, t) = gather_failed "failed to create timezone service: %s" m.timezone _ a in
      let (_, p) = gather_failed "failed to create privacy service: %s" m.privacy _ t in
      let (_, k) = gather_failed "failed to create keyboard service: %s" m.keyboard _ p in
      let (_, l) = gather_failed "failed to create locale service: %s" m.locale _ k in
      let (_, u) = gather_failed "failed to create user service: %s" m.user _ l in
      (gather_failed "failed to connect to system bus: %s" m.connected none u).0

  -- The services that a manager made of `m` registers.
  abbrev pub served : Made around → List Registered
  served m =
      user
      ∷ locale
      ∷ keyboard
      ∷ privacy
      ∷ timezone
      ∷ accessibility
      ∷ telemetry
      ∷ (if is_ok m.gdm then gdm ∷ [] else [])

  abbrev pub Starts : Made around → Result Err (Manager W) → Type 0
  Starts m r = (n : Manager W) × (r ≡ ok n) × (register_grpc_services n ≡ served m)

  registers :
      (g : Result Err Gdm.Service)
      → user
          ∷ locale
          ∷ keyboard
          ∷ privacy
          ∷ timezone
          ∷ accessibility
          ∷ telemetry
          ∷ registered_gdm (to_option g)
        ≡ user
          ∷ locale
          ∷ keyboard
          ∷ privacy
          ∷ timezone
          ∷ accessibility
          ∷ telemetry
          ∷ (if is_ok g then gdm ∷ [] else [])
  unfolding registered_gdm to_option
  registers (ok g) = refl
  registers (err e) = refl
  registers panic = refl

  finish-Starts : (m : Made around) (w : W) → AllMade m → Starts m (finish around m w).0
  unfolding finish unless_errs assemble Telemetry.new Telemetry.sysmetrics_impl apply_options
      register_grpc_services
  finish-Starts m w a =
      let (u, eu) = is_ok_value m.user a.user_made in
      let (l, el) = is_ok_value m.locale a.locale_made in
      let (k, ek) = is_ok_value m.keyboard a.keyboard_made in
      let (p, ep) = is_ok_value m.privacy a.privacy_made in
      let (t, et) = is_ok_value m.timezone a.timezone_made in
      let (x, ex) = is_ok_value m.accessibility a.accessibility_made in
      rw (AllMade-all_errs m a) (rw (eu, el, ek, ep, et, ex) (_, refl, registers m.gdm))

  assembled :
      (u : Result Err User.Service.Service) (l : Result Err Locale.Service)
      (k : Result Err Keyboard.Service.Service) (p : Result Err Privacy.Service)
      (t : Result Err Timezone.Service) (a : Result Err Accessibility.Service)
      (g : Option Gdm.Service) (w : W)
      → is_ok (assemble around u l k p t a g w).0 ≡ true
      → (is_ok u ≡ true)
        × (is_ok l ≡ true)
        × (is_ok k ≡ true)
        × (is_ok p ≡ true)
        × (is_ok t ≡ true)
        × (is_ok a ≡ true)
  unfolding assemble
  assembled (ok u) (ok l) (ok k) (ok p) (ok t) (ok a) g w h = (refl, refl, refl, refl, refl, refl)
  assembled _ _ _ _ _ _ g w h = absurd (cc)

  finish-AllMade : (m : Made around) (w : W) → is_ok (finish around m w).0 ≡ true → AllMade m
  unfolding finish unless_errs
  finish-AllMade m w h = go (all_errs around m) refl
    where
      go : (errs : Option Err) → all_errs around m ≡ errs → AllMade m
      go none e =
          let (u, l, k, p, t, a) =
            assembled m.user m.locale m.keyboard m.privacy m.timezone m.accessibility
              (to_option m.gdm) w (ground (arith, e, h)) in
          record {
            connected = all_errs-connected m e;
            user_made = u;
            locale_made = l;
            keyboard_made = k;
            privacy_made = p;
            timezone_made = t;
            accessibility_made = a;
          }
      go (some x) e = absurd (ground (arith, e))

  -- Where the constructors have returned `m`: if the connection to the bus has not failed and every
  -- service but GDM was made, then a manager is made, and it registers these services, telemetry,
  -- and GDM as well if that was made; and if a manager is made, then the connection has not failed
  -- and every service but GDM was made.
  pub new_manager-Starts :
      (m : Made around) (w v : W)
      → make_all around w ≡ (ok m, v)
      → (AllMade m → Starts m (new_manager around w).0)
        × (is_ok (new_manager around w).0 ≡ true → AllMade m)
  unfolding new_manager
  new_manager-Starts m w v e = rw e ((λ a. finish-Starts m v a), (λ h. finish-AllMade m v h))

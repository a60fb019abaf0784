-- ===== src/Manager.antt =====
-- The manager of the services: provd/internal/services/manager.go.
pub mod Startup
use ubuntu_installer_latest.Base.{
  Bool, Option, none, some, String, List, [], ◌∷◌, ◌++◌, Err, Result, ok, err, panic, Run, Empty,
  internal, on_err, status, status_err, catch, map_err, pure, throw, lift, ◌>>=◌, ◌>>◌,
}
use ubuntu_installer_latest.System.{Bus, Settings}
use ubuntu_installer_latest.Accessibility.{join}
use ubuntu_installer_latest.User
use ubuntu_installer_latest.Locale
use ubuntu_installer_latest.Keyboard
use ubuntu_installer_latest.Keyboard.Service.{ValueSettings}
use ubuntu_installer_latest.Privacy
use ubuntu_installer_latest.Timezone
use ubuntu_installer_latest.Accessibility
use ubuntu_installer_latest.Gdm
use ubuntu_installer_latest.Gdm.{PrivateBus}
use ubuntu_installer_latest.Gdm.Launch
use ubuntu_installer_latest.Telemetry
use ubuntu_installer_latest.Telemetry.{Sysmetricer, Sysmetrics}

-- What `NewManager` finds around it. `bus` is what a successful connection gives; where the
-- connection fails, the constructors are given the nil connection, `nil_bus`.
pub record Surroundings (W V : Type 0) : Type 0 where
  pub connect_system_bus : Run W Err Empty
  pub bus : Bus W
  pub nil_bus : Bus W
  pub close_bus : Run W Err Empty
  pub settings : Settings W
  pub value_settings : ValueSettings W V
  pub private : PrivateBus W
  pub sysmetrics : Sysmetrics W

-- `gdm_service` is `none` where it is a nil pointer.
pub record Manager (W : Type 0) : Type 0 where
  pub user_service : User.Service.Service
  pub locale_service : Locale.Service
  pub keyboard_service : Keyboard.Service.Service
  pub privacy_service : Privacy.Service
  pub timezone_service : Timezone.Service
  pub accessibility_service : Accessibility.Service
  pub telemetry_service : Sysmetricer W
  pub gdm_service : Option Gdm.Service

-- `errs`, with one more error if `r` is one.
unfoldable pub gather : {A : Type 0} → String → Result Err A → Option Err → Option Err
gather format (err e) errs = join errs (on_err format e)
gather format _ errs = errs

unfoldable pub to_option : {A : Type 0} → Result Err A → Option A
to_option (ok a) = some a
to_option _ = none

-- `status.Errorf(codes.Internal, "%s", errs)` and what `decorate.OnError` puts before it.
abbrev pub decorated : Err → Err
decorated e = on_err "can't create provd object" e

module _ {W V : Type 0} (around : Surroundings W V) where
  unfoldable pub close_gdm : Option Gdm.Service → W → W
  close_gdm none w = w
  close_gdm (some s) w = Gdm.Launch.close around.private s w

  unfoldable pub bus_of : Result Err Empty → Bus W
  bus_of (ok _) = around.bus
  bus_of _ = around.nil_bus

  -- The values that the constructors have returned are there, and Telemetry is made last.
  unfoldable pub assemble :
      Result Err User.Service.Service
      → Result Err Locale.Service
      → Result Err Keyboard.Service.Service
      → Result Err Privacy.Service
      → Result Err Timezone.Service
      → Result Err Accessibility.Service
      → Option Gdm.Service
      → Run W Err (Manager W)
  assemble (ok u) (ok l) (ok k) (ok p) (ok t) (ok a) g = do
    m ←
        map_err (λ e. decorated (status_err internal "failed to create telemetry service: %s" e))
          (Telemetry.new around.sysmetrics [])
    pure (record {
      user_service = u;
      locale_service = l;
      keyboard_service = k;
      privacy_service = p;
      timezone_service = t;
      accessibility_service = a;
      telemetry_service = m;
      gdm_service = g;
    })
  assemble _ _ _ _ _ _ _ = lift panic

  -- Errors that were gathered end the construction, in one status.
  unfoldable pub unless_errs : Option Err → Run W Err (Manager W) → Run W Err (Manager W)
  unless_errs none m = m
  unless_errs (some errs) m = throw (decorated (status internal errs))

  -- What the constructors have returned, in the order in which they are called.
  pub record Made : Type 0 where
    pub connected : Result Err Empty
    pub user : Result Err User.Service.Service
    pub locale : Result Err Locale.Service
    pub keyboard : Result Err Keyboard.Service.Service
    pub privacy : Result Err Privacy.Service
    pub timezone : Result Err Timezone.Service
    pub accessibility : Result Err Accessibility.Service
    pub gdm : Result Err Gdm.Service

  unfoldable pub make_all : Run W Err Made
  make_all = do
    c ← catch around.connect_system_bus
    u ← catch (User.Service.new (bus_of c) [])
    l ← catch (Locale.new (bus_of c) [])
    k ← catch (Keyboard.Service.new (bus_of c) around.value_settings [])
    p ← catch (Privacy.new around.settings [])
    t ← catch (Timezone.new (bus_of c) [])
    a ← catch (Accessibility.new around.settings [])
    g ← catch (Gdm.new (bus_of c) around.private [])
    pure (record {
      connected = c;
      user = u;
      locale = l;
      keyboard = k;
      privacy = p;
      timezone = t;
      accessibility = a;
      gdm = g;
    })

  -- `errs` after all constructors; an error of GDM is logged and is not among them.
  unfoldable pub all_errs : Made → Option Err
  all_errs m = gather "failed to create accessibility service: %s" m.accessibility (
      gather "failed to create timezone service: %s" m.timezone (
        gather "failed to create privacy service: %s" m.privacy (
          gather "failed to create keyboard service: %s" m.keyboard (
            gather "failed to create locale service: %s" m.locale (
              gather "failed to create user service: %s" m.user
                (gather "failed to connect to system bus: %s" m.connected none))))))

  unfoldable pub finish : Made → Run W Err (Manager W)
  finish m =
      unless_errs (all_errs m)
        (assemble m.user m.locale m.keyboard m.privacy m.timezone m.accessibility (to_option m.gdm))

  unfoldable pub new_manager : Run W Err (Manager W)
  new_manager = do m ← make_all; finish m

  -- `Stop`: the private connection of GDM, and then the system bus.
  unfoldable pub stop : Manager W → Run W Err Empty
  stop m w = around.close_bus (close_gdm m.gdm_service w)

-- The services that `RegisterGRPCServices` registers, in this order.
pub data Registered : Type 0 where
  user locale keyboard privacy timezone accessibility telemetry gdm : Registered

unfoldable pub registered_gdm : Option Gdm.Service → List Registered
registered_gdm none = []
registered_gdm (some _) = gdm ∷ []

unfoldable pub register_grpc_services : {W : Type 0} → Manager W → List Registered
register_grpc_services m =
    user
    ∷ locale
    ∷ keyboard
    ∷ privacy
    ∷ timezone
    ∷ accessibility
    ∷ telemetry
    ∷ registered_gdm m.gdm_service

-- ===== src/Accessibility.antt =====
-- The Accessibility service: the files of provd/internal/services/accessibility. Its state, its
-- constructor and its helpers (accessibility.go) stand here.
pub mod Handlers
pub mod Features
use ubuntu_installer_latest.Base.{
  Bool, true, false, Option, none, some, String, List, [], ◌∷◌, if◌then◌else◌,
}
use ubuntu_installer_latest.Base.{
  Err, Result, ok, err, Run, internal, status, message, on_err, on_bool, on_text, joined,
  apply_options, status_message, ◌>>=◌,
}
use ubuntu_installer_latest.System.{Settings}

-- The schemas of the five settings objects.
pub record Service : Type 0 where
  pub a11y_settings : String
  pub application_settings : String
  pub interface_settings : String
  pub wm_settings : String
  pub keyboard_settings : String

abbrev pub default_service : Service
default_service = record {
  a11y_settings = "org.gnome.desktop.a11y.interface";
  application_settings = "org.gnome.desktop.a11y.applications";
  interface_settings = "org.gnome.desktop.interface";
  wm_settings = "org.gnome.desktop.wm.preferences";
  keyboard_settings = "org.gnome.desktop.a11y.keyboard";
}

-- `errors.Join(errs, err)`, where `none` is nil.
unfoldable pub join : Option Err → Err → Option Err
join none e = some e
join (some es) e = some (joined es e)

-- GSettings with floating-point numbers of a type `D`, the two numbers that the service writes, and
-- Go's `==` on such numbers.
pub record Doubles (W D : Type 0) : Type 0 where
  pub set_double : String → String → D → W → Bool × W
  pub get_double : String → String → W → D × W
  pub text_scaling_default : D
  pub text_scaling_large : D
  pub double_eq : D → D → Bool

module _ {W : Type 0} (settings : Settings W) where
  -- The errors so far, with one more if the key of the schema is not writable.
  unfoldable pub check_writable : String → String → String → Option Err → W → Option Err × W
  check_writable schema key failure errs w =
      let (writable, v) = settings.is_writable schema key w in
      if writable then (errs, v) else (join errs (message failure), v)

  unfoldable pub check_all : Service → W → Option Err × W
  check_all s w =
      let (e, w1) =
        check_writable s.a11y_settings "high-contrast"
          "failed to connect to org.gnome.desktop.a11y.interface" none w in
      let (e2, w2) =
        check_writable s.application_settings "screen-keyboard-enabled"
          "failed to connect to org.gnome.desktop.a11y.applications" e w1 in
      let (e3, w3) =
        check_writable s.interface_settings "cursor-blink"
          "failed to connect to org.gnome.desktop.interface" e2 w2 in
      let (e4, w4) =
        check_writable s.wm_settings "audible-bell"
          "failed to connect to org.gnome.desktop.wm.preferences" e3 w3 in
      check_writable s.keyboard_settings "sticky-keys"
        "failed to connect to org.gnome.desktop.a11y.keyboard" e4 w4

  unfoldable pub on_checked : Service → Option Err × W → Result Err Service × W
  on_checked s (none, w) = (ok s, w)
  on_checked s (some es, w) = (err (status internal es), w)

  unfoldable pub finish_new : Service → Run W Err Service
  finish_new s w = on_checked s (check_all s w)

  unfoldable pub new : List (Service → Run W Err Service) → Run W Err Service
  new opts = do s ← apply_options opts default_service; finish_new s

  abbrev pub written : Err → Bool × W → Result Err Unit × W
  written e (true, w) = (ok tt, w)
  written e (false, w) = (err e, w)

  unfoldable pub set_boolean_settings : String → String → Bool → String → Run W Err Unit
  set_boolean_settings schema key enabled error_fmt w =
      written (status internal (on_bool error_fmt enabled))
        (settings.set_boolean schema key enabled w)

  unfoldable pub get_boolean_settings : String → String → Run W Err Bool
  get_boolean_settings schema key w =
      let (value, v) = settings.get_boolean schema key w in (ok value, v)

  module _ {D : Type 0} (doubles : Doubles W D) where
    -- The value that Go's message also holds is left out of the error.
    unfoldable pub set_double_settings : String → String → D → String → Run W Err Unit
    set_double_settings schema key value error_fmt w =
        written (status_message internal error_fmt) (doubles.set_double schema key value w)

    unfoldable pub get_double_settings : String → String → Run W Err D
    get_double_settings schema key w =
        let (value, v) = doubles.get_double schema key w in (ok value, v)

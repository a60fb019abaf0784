-- ===== src/Accessibility/Handlers.antt =====
-- The handlers of the Accessibility service: zoom.go, hearing.go, typing.go, seeing.go and
-- pointing_and_clicking.go.
use ubuntu_installer_latest.Base.{Bool, true, false, not, Err, Run, pure, ◌>>=◌}
use ubuntu_installer_latest.System.{Settings}
use ubuntu_installer_latest.Accessibility.{
  Service, Doubles, set_boolean_settings, get_boolean_settings, set_double_settings,
  get_double_settings,
}

module _ {W : Type 0} (settings : Settings W) (s : Service) where
  unfoldable pub get_desktop_zoom : Run W Err Bool
  get_desktop_zoom = get_boolean_settings settings s.application_settings "screen-magnifier-enabled"

  unfoldable pub enable_desktop_zoom : Run W Err Unit
  enable_desktop_zoom =
      set_boolean_settings settings s.application_settings "screen-magnifier-enabled" true
        "failed to enable desktop zoom: %v"

  unfoldable pub disable_desktop_zoom : Run W Err Unit
  disable_desktop_zoom =
      set_boolean_settings settings s.application_settings "screen-magnifier-enabled" false
        "failed to disable desktop zoom: %v"

  unfoldable pub get_visual_alerts : Run W Err Bool
  get_visual_alerts = get_boolean_settings settings s.wm_settings "visual-bell"

  unfoldable pub enable_visual_alerts : Run W Err Unit
  enable_visual_alerts =
      set_boolean_settings settings s.wm_settings "visual-bell" true
        "failed to enable visual alerts %v"

  unfoldable pub disable_visual_alerts : Run W Err Unit
  disable_visual_alerts =
      set_boolean_settings settings s.wm_settings "visual-bell" false
        "failed to disable visual alerts %v"

  unfoldable pub get_screen_keyboard : Run W Err Bool
  get_screen_keyboard =
      get_boolean_settings settings s.application_settings "screen-keyboard-enabled"

  unfoldable pub enable_screen_keyboard : Run W Err Unit
  enable_screen_keyboard =
      set_boolean_settings settings s.application_settings "screen-keyboard-enabled" true
        "failed to enable screen keyboard: %v"

  unfoldable pub disable_screen_keyboard : Run W Err Unit
  disable_screen_keyboard =
      set_boolean_settings settings s.application_settings "screen-keyboard-enabled" false
        "failed to disable screen keyboard: %v"

  unfoldable pub get_sticky_keys : Run W Err Bool
  get_sticky_keys = get_boolean_settings settings s.keyboard_settings "stickykeys-enable"

  unfoldable pub enable_sticky_keys : Run W Err Unit
  enable_sticky_keys =
      set_boolean_settings settings s.keyboard_settings "stickykeys-enable" true
        "failed to enable sticky keys: %v"

  unfoldable pub disable_sticky_keys : Run W Err Unit
  disable_sticky_keys =
      set_boolean_settings settings s.keyboard_settings "stickykeys-enable" false
        "failed to disable sticky keys: %v"

  unfoldable pub get_slow_keys : Run W Err Bool
  get_slow_keys = get_boolean_settings settings s.keyboard_settings "slowkeys-enable"

  unfoldable pub enable_slow_keys : Run W Err Unit
  enable_slow_keys =
      set_boolean_settings settings s.keyboard_settings "slowkeys-enable" true
        "failed to enable slow keys: %v"

  unfoldable pub disable_slow_keys : Run W Err Unit
  disable_slow_keys =
      set_boolean_settings settings s.keyboard_settings "slowkeys-enable" false
        "failed to disable slow keys: %v"

  unfoldable pub get_high_contrast : Run W Err Bool
  get_high_contrast = get_boolean_settings settings s.a11y_settings "high-contrast"

  unfoldable pub enable_high_contrast : Run W Err Unit
  enable_high_contrast =
      set_boolean_settings settings s.a11y_settings "high-contrast" true
        "failed to enable high contrast: %v"

  unfoldable pub disable_high_contrast : Run W Err Unit
  disable_high_contrast =
      set_boolean_settings settings s.a11y_settings "high-contrast" false
        "failed to disable high contrast: %v"

  unfoldable pub get_reduced_motion : Run W Err Bool
  get_reduced_motion = do
    animations ← get_boolean_settings settings s.interface_settings "enable-animations"
    pure (not animations)

  unfoldable pub enable_reduced_motion : Run W Err Unit
  enable_reduced_motion =
      set_boolean_settings settings s.interface_settings "enable-animations" false
        "failed to enable reduced motion: %v"

  unfoldable pub disable_reduced_motion : Run W Err Unit
  disable_reduced_motion =
      set_boolean_settings settings s.interface_settings "enable-animations" true
        "failed to disable reduced motion: %v"

  unfoldable pub get_screen_reader : Run W Err Bool
  get_screen_reader = get_boolean_settings settings s.application_settings "screen-reader-enabled"

  unfoldable pub enable_screen_reader : Run W Err Unit
  enable_screen_reader =
      set_boolean_settings settings s.application_settings "screen-reader-enabled" true
        "failed to enable screen reader: %v"

  unfoldable pub disable_screen_reader : Run W Err Unit
  disable_screen_reader =
      set_boolean_settings settings s.application_settings "screen-reader-enabled" false
        "failed to disable screen reader: %v"

  unfoldable pub get_mouse_keys : Run W Err Bool
  get_mouse_keys = get_boolean_settings settings s.keyboard_settings "mousekeys-enable"

  unfoldable pub enable_mouse_keys : Run W Err Unit
  enable_mouse_keys =
      set_boolean_settings settings s.keyboard_settings "mousekeys-enable" true
        "failed to enable mouse keys: %v"

  unfoldable pub disable_mouse_keys : Run W Err Unit
  disable_mouse_keys =
      set_boolean_settings settings s.keyboard_settings "mousekeys-enable" false
        "failed to disable mouse keys: %v"

  module _ {D : Type 0} (doubles : Doubles W D) where
    unfoldable pub get_large_text : Run W Err Bool
    get_large_text = do
      factor ← get_double_settings settings doubles s.interface_settings "text-scaling-factor"
      pure (doubles.double_eq factor doubles.text_scaling_large)

    unfoldable pub enable_large_text : Run W Err Unit
    enable_large_text =
        set_double_settings settings doubles s.interface_settings "text-scaling-factor"
          doubles.text_scaling_large "failed to enable large text: %v"

    unfoldable pub disable_large_text : Run W Err Unit
    disable_large_text =
        set_double_settings settings doubles s.interface_settings "text-scaling-factor"
          doubles.text_scaling_default "failed to disable large text: %v"

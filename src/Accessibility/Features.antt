-- ===== src/Accessibility/Features.antt =====
-- The features of the Accessibility service against one another, over the schemas that the
-- constructor sets.
pub mod Effects
use ubuntu_installer_latest.Base.{
  ℕ, ◌==◌, Bool, true, false, not, ◌≡◌, refl, sym, ap, ◌∙◌, Bool-cases, inl, inr, arith, Err, ok,
  Run, is_ok, String, str_eq, ◌&&◌, if◌then◌else◌,
}
use ubuntu_installer_latest.System.{Settings}
use ubuntu_installer_latest.Accessibility.{
  default_service, Doubles, set_boolean_settings, get_boolean_settings, set_double_settings,
  get_double_settings,
}
use ubuntu_installer_latest.Accessibility.Handlers.{
  get_desktop_zoom, enable_desktop_zoom, disable_desktop_zoom, get_visual_alerts,
  enable_visual_alerts, disable_visual_alerts, get_screen_keyboard, enable_screen_keyboard,
  disable_screen_keyboard, get_sticky_keys, enable_sticky_keys, disable_sticky_keys, get_slow_keys,
  enable_slow_keys, disable_slow_keys, get_high_contrast, enable_high_contrast,
  disable_high_contrast, get_reduced_motion, enable_reduced_motion, disable_reduced_motion,
  get_screen_reader, enable_screen_reader, disable_screen_reader, get_mouse_keys, enable_mouse_keys,
  disable_mouse_keys, get_large_text, enable_large_text, disable_large_text,
}

pub data Feature : Type 0 where
  desktop_zoom visual_alerts screen_keyboard sticky_keys slow_keys : Feature
  high_contrast reduced_motion screen_reader mouse_keys large_text : Feature

-- The key of a feature, its number, whether the key holds a number, and what is read and written
-- there.
abbrev pub schema : Feature → String
schema desktop_zoom = "org.gnome.desktop.a11y.applications"
schema visual_alerts = "org.gnome.desktop.wm.preferences"
schema screen_keyboard = "org.gnome.desktop.a11y.applications"
schema sticky_keys = "org.gnome.desktop.a11y.keyboard"
schema slow_keys = "org.gnome.desktop.a11y.keyboard"
schema high_contrast = "org.gnome.desktop.a11y.interface"
schema reduced_motion = "org.gnome.desktop.interface"
schema screen_reader = "org.gnome.desktop.a11y.applications"
schema mouse_keys = "org.gnome.desktop.a11y.keyboard"
schema large_text = "org.gnome.desktop.interface"

abbrev pub key : Feature → String
key desktop_zoom = "screen-magnifier-enabled"
key visual_alerts = "visual-bell"
key screen_keyboard = "screen-keyboard-enabled"
key sticky_keys = "stickykeys-enable"
key slow_keys = "slowkeys-enable"
key high_contrast = "high-contrast"
key reduced_motion = "enable-animations"
key screen_reader = "screen-reader-enabled"
key mouse_keys = "mousekeys-enable"
key large_text = "text-scaling-factor"

abbrev pub index : Feature → ℕ
index desktop_zoom = 0
index visual_alerts = 1
index screen_keyboard = 2
index sticky_keys = 3
index slow_keys = 4
index high_contrast = 5
index reduced_motion = 6
index screen_reader = 7
index mouse_keys = 8
index large_text = 9

abbrev pub is_number : Feature → Bool
is_number large_text = true
is_number _ = false

abbrev pub sense : Feature → Bool → Bool
sense reduced_motion b = not b
sense _ b = b

-- The values of the keys, and of the keys of floating-point numbers: a getter reads them, a
-- successful setter changes its own, and nothing else changes them.
pub record StoreLaws {W D : Type 0} (settings : Settings W) (doubles : Doubles W D) : Type 0 where
  pub value : String → String → W → Bool
  pub number : String → String → W → D
  pub get_value :
      (schema key : String) (w : W) → (settings.get_boolean schema key w).0 ≡ value schema key w
  pub set_value :
      (schema key : String) (b : Bool) (sc k : String) (w : W)
      → let r = settings.set_boolean schema key b w in
        value sc k r.1 ≡ (if r.0 && (str_eq sc schema && str_eq k key) then b else value sc k w)
  pub set_number :
      (schema key : String) (b : Bool) (sc k : String) (w : W)
      → number sc k (settings.set_boolean schema key b w).1 ≡ number sc k w
  pub get_double_number :
      (schema key : String) (w : W) → (doubles.get_double schema key w).0 ≡ number schema key w
  pub set_double_value :
      (schema key : String) (d : D) (sc k : String) (w : W)
      → value sc k (doubles.set_double schema key d w).1 ≡ value sc k w
  pub set_double_number :
      (schema key : String) (d : D) (w : W)
      → let r = doubles.set_double schema key d w in
        number schema key r.1 ≡ (if r.0 then d else number schema key w)
  pub large_eq : doubles.double_eq doubles.text_scaling_large doubles.text_scaling_large ≡ true
  pub default_ne : doubles.double_eq doubles.text_scaling_default doubles.text_scaling_large ≡ false

module _ {W D : Type 0} (settings : Settings W) (doubles : Doubles W D) where
  -- The handlers of a feature.
  abbrev pub get : Feature → Run W Err Bool
  get desktop_zoom = get_desktop_zoom settings default_service
  get visual_alerts = get_visual_alerts settings default_service
  get screen_keyboard = get_screen_keyboard settings default_service
  get sticky_keys = get_sticky_keys settings default_service
  get slow_keys = get_slow_keys settings default_service
  get high_contrast = get_high_contrast settings default_service
  get reduced_motion = get_reduced_motion settings default_service
  get screen_reader = get_screen_reader settings default_service
  get mouse_keys = get_mouse_keys settings default_service
  get large_text = get_large_text settings default_service doubles

  -- Switched on by `true`.
  abbrev pub switch : Feature → Bool → Run W Err Unit
  switch desktop_zoom true = enable_desktop_zoom settings default_service
  switch desktop_zoom false = disable_desktop_zoom settings default_service
  switch visual_alerts true = enable_visual_alerts settings default_service
  switch visual_alerts false = disable_visual_alerts settings default_service
  switch screen_keyboard true = enable_screen_keyboard settings default_service
  switch screen_keyboard false = disable_screen_keyboard settings default_service
  switch sticky_keys true = enable_sticky_keys settings default_service
  switch sticky_keys false = disable_sticky_keys settings default_service
  switch slow_keys true = enable_slow_keys settings default_service
  switch slow_keys false = disable_slow_keys settings default_service
  switch high_contrast true = enable_high_contrast settings default_service
  switch high_contrast false = disable_high_contrast settings default_service
  switch reduced_motion true = enable_reduced_motion settings default_service
  switch reduced_motion false = disable_reduced_motion settings default_service
  switch screen_reader true = enable_screen_reader settings default_service
  switch screen_reader false = disable_screen_reader settings default_service
  switch mouse_keys true = enable_mouse_keys settings default_service
  switch mouse_keys false = disable_mouse_keys settings default_service
  switch large_text true = enable_large_text settings default_service doubles
  switch large_text false = disable_large_text settings default_service doubles

  module _ (laws : StoreLaws settings doubles) where
    -- Whether a feature is on.
    abbrev pub is_on : Feature → W → Bool
    is_on desktop_zoom w =
        laws.value "org.gnome.desktop.a11y.applications" "screen-magnifier-enabled" w
    is_on visual_alerts w = laws.value "org.gnome.desktop.wm.preferences" "visual-bell" w
    is_on screen_keyboard w =
        laws.value "org.gnome.desktop.a11y.applications" "screen-keyboard-enabled" w
    is_on sticky_keys w = laws.value "org.gnome.desktop.a11y.keyboard" "stickykeys-enable" w
    is_on slow_keys w = laws.value "org.gnome.desktop.a11y.keyboard" "slowkeys-enable" w
    is_on high_contrast w = laws.value "org.gnome.desktop.a11y.interface" "high-contrast" w
    is_on reduced_motion w = not (laws.value "org.gnome.desktop.interface" "enable-animations" w)
    is_on screen_reader w =
        laws.value "org.gnome.desktop.a11y.applications" "screen-reader-enabled" w
    is_on mouse_keys w = laws.value "org.gnome.desktop.a11y.keyboard" "mousekeys-enable" w
    is_on large_text w =
        doubles.double_eq (laws.number "org.gnome.desktop.interface" "text-scaling-factor" w)
          doubles.text_scaling_large

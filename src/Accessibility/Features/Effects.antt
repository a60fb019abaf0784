-- ===== src/Accessibility/Features/Effects.antt =====
-- What a switch of a feature does to the getters of all features.
use ubuntu_installer_latest.Base.{
  ℕ, ◌==◌, Bool, true, false, ◌≡◌, refl, sym, ap, ◌∙◌, Bool-cases, inl, inr, arith, ok, is_ok,
  str_eq, ◌&&◌, if◌then◌else◌,
}
use ubuntu_installer_latest.System.{Settings}
use ubuntu_installer_latest.Accessibility.{
  Doubles, set_boolean_settings, get_boolean_settings, set_double_settings, get_double_settings,
}
use ubuntu_installer_latest.Accessibility.Handlers.{
  get_desktop_zoom, enable_desktop_zoom, disable_desktop_zoom, get_visual_alerts,
  enable_visual_alerts, disable_visual_alerts, get_screen_keyboard, enable_screen_keyboard,
  disable_screen_keyboard, get_sticky_keys, enable_sticky_keys, disable_sticky_keys, get_slow_keys,
  enable_slow_keys, disable_slow_keys, get_high_contrast, enable_high_contrast,
  disable_high_contrast, get_reduced_motion, enable_reduced_motion, disable_reduced_motion,
  get_screen_reader, enable_screen_reader, disable_screen_reader, get_mouse_keys, enable_mouse_keys,
  disable_mouse_keys, get_large_text, enable_large_text, disable_large_text,
}
use ubuntu_installer_latest.Accessibility.Features.{
  Feature, desktop_zoom, visual_alerts, screen_keyboard, sticky_keys, slow_keys, high_contrast,
  reduced_motion, screen_reader, mouse_keys, large_text, schema, key, index, is_number, sense,
  StoreLaws, get, switch, is_on,
}

abbrev from_index : ℕ → Feature
from_index n =
    if n == 0
    then desktop_zoom
    else if n == 1
    then visual_alerts
    else if n == 2
    then screen_keyboard
    else if n == 3
    then sticky_keys
    else if n == 4
    then slow_keys
    else if n == 5
    then high_contrast
    else if n == 6
    then reduced_motion
    else if n == 7
    then screen_reader
    else if n == 8
    then mouse_keys
    else large_text

from_index-index : (f : Feature) → from_index (index f) ≡ f
from_index-index desktop_zoom = refl
from_index-index _ = refl

index-injective : (f g : Feature) → index g == index f ≡ true → g ≡ f
index-injective f g h =
    sym (from_index-index g) ∙ ap from_index (equal (index g) (index f) h) ∙ from_index-index f
  where
    equal : (m n : ℕ) → m == n ≡ true → m ≡ n
    equal m n e = ground (arith, e)

sense-sense : (f : Feature) (b : Bool) → sense f (sense f b) ≡ b
sense-sense reduced_motion true = refl
sense-sense reduced_motion false = refl
sense-sense _ b = refl

index_same : (f : Feature) → (index f == index f) ≡ true
index_same desktop_zoom = refl
index_same _ = refl

and_false : (x : Bool) → (x && false) ≡ false
and_false true = refl
and_false false = refl

index_apart : (f g : Feature) → (g ≡ f → ⊥) → (index g == index f) ≡ false
index_apart f g h = elim (Bool-cases (index g == index f)) [
  | inl e ↦ absurd (h (index-injective f g e))
  | inr e ↦ e
]

module _ {W D : Type 0} (settings : Settings W) (doubles : Doubles W D)
    (laws : StoreLaws settings doubles) where
  -- A getter answers whether its feature is on.
  get-is_on :
      (f : Feature) (w : W) → (get settings doubles f w).0 ≡ ok (is_on settings doubles laws f w)
  unfolding get_double_settings get_boolean_settings get_desktop_zoom get_visual_alerts
      get_screen_keyboard get_sticky_keys get_slow_keys get_high_contrast get_reduced_motion
      get_screen_reader get_mouse_keys get_large_text
  get-is_on large_text w = rw laws.get_double_number
  get-is_on reduced_motion w = rw laws.get_value
  get-is_on _ w = rw laws.get_value

  -- A switch of a feature that is kept in a Boolean key writes that key.
  switch_end :
      (f : Feature) (b : Bool) (w : W)
      → is_number f ≡ false
      → let r = settings.set_boolean (schema f) (key f) (sense f b) w in
        ((switch settings doubles f b w).1 ≡ r.1) × (is_ok (switch settings doubles f b w).0 ≡ r.0)
  unfolding set_boolean_settings enable_desktop_zoom disable_desktop_zoom enable_visual_alerts
      disable_visual_alerts enable_screen_keyboard disable_screen_keyboard enable_sticky_keys
      disable_sticky_keys enable_slow_keys disable_slow_keys enable_high_contrast
      disable_high_contrast enable_reduced_motion disable_reduced_motion enable_screen_reader
      disable_screen_reader enable_mouse_keys disable_mouse_keys
  switch_end large_text b w h = absurd (cc)
  switch_end _ true w h = (ground arith, ground arith)
  switch_end _ false w h = (ground arith, ground arith)

  is_on_value :
      (g : Feature) (w : W)
      → is_number g ≡ false
      → is_on settings doubles laws g w ≡ sense g (laws.value (schema g) (key g) w)
  is_on_value large_text w h = absurd (cc)
  is_on_value _ w h = refl

  -- Two features never share a key.
  keys_apart :
      (f g : Feature)
      → (str_eq (schema g) (schema f) && str_eq (key g) (key f)) ≡ (index g == index f)
  keys_apart desktop_zoom desktop_zoom = refl
  keys_apart desktop_zoom _ = refl
  keys_apart visual_alerts desktop_zoom = refl
  keys_apart visual_alerts _ = refl
  keys_apart screen_keyboard desktop_zoom = refl
  keys_apart screen_keyboard _ = refl
  keys_apart sticky_keys desktop_zoom = refl
  keys_apart sticky_keys _ = refl
  keys_apart slow_keys desktop_zoom = refl
  keys_apart slow_keys _ = refl
  keys_apart high_contrast desktop_zoom = refl
  keys_apart high_contrast _ = refl
  keys_apart reduced_motion desktop_zoom = refl
  keys_apart reduced_motion _ = refl
  keys_apart screen_reader desktop_zoom = refl
  keys_apart screen_reader _ = refl
  keys_apart mouse_keys desktop_zoom = refl
  keys_apart mouse_keys _ = refl
  keys_apart large_text desktop_zoom = refl
  keys_apart large_text _ = refl

  -- What a switch does to its own feature, and to the others.
  abbrev Effect : (f g : Feature) → Bool → W → Type 0
  Effect f g b w =
      let end = switch settings doubles f b w in
      (is_ok end.0 ≡ true → is_on settings doubles laws f end.1 ≡ b)
      × (is_ok end.0 ≡ false
          → is_on settings doubles laws g end.1 ≡ is_on settings doubles laws g w)
      × ((g ≡ f → ⊥) → is_on settings doubles laws g end.1 ≡ is_on settings doubles laws g w)

  -- The effect of a write to the key of `f` on what `g` reads.
  write_effect :
      (f g : Feature) (b : Bool) (w : W)
      → is_number f ≡ false
      → is_number g ≡ false
      → is_on settings doubles laws g (switch settings doubles f b w).1
        ≡ sense g (
            if is_ok (switch settings doubles f b w).0 && (index g == index f)
            then sense f b
            else laws.value (schema g) (key g) w)
  write_effect f g b w p q =
      let (end, done) = switch_end f b w p in
      rw (is_on_value g _ q, end, done, laws.set_value, keys_apart f g)

  number_effect :
      (f : Feature) (b : Bool) (w : W)
      → is_number f ≡ false
      → is_on settings doubles laws large_text (switch settings doubles f b w).1
        ≡ is_on settings doubles laws large_text w
  number_effect f b w p =
      let large = λ (d : D). doubles.double_eq d doubles.text_scaling_large in
      ap (is_on settings doubles laws large_text) (switch_end f b w p).0
      ∙ ap large
          (laws.set_number (schema f) (key f) (sense f b) (schema large_text) (key large_text) w)

  bool_Effect :
      (f g : Feature) (b : Bool) (w : W)
      → is_number f ≡ false
      → is_number g ≡ false
      → Effect f g b w
  bool_Effect f g b w p q = (
    λ h. write_effect f f b w p p ∙ rw (h, index_same f, sense-sense f b),
    λ h. write_effect f g b w p q ∙ rw (h, is_on_value g w q),
    λ n. write_effect f g b w p q ∙ rw (index_apart f g n, and_false, is_on_value g w q),
  )

  -- The text scaling factor is the one feature that is kept in a number.
  large_self :
      (b : Bool) (w : W)
      → is_on settings doubles laws large_text (switch settings doubles large_text b w).1 ≡ (
          if is_ok (switch settings doubles large_text b w).0
          then b
          else is_on settings doubles laws large_text w)
  unfolding enable_large_text disable_large_text set_double_settings
  large_self true w = ground (
    arith,
    laws.set_double_number (schema large_text) (key large_text) doubles.text_scaling_large w,
    laws.large_eq,
  )
  large_self false w = ground (
    arith,
    laws.set_double_number (schema large_text) (key large_text) doubles.text_scaling_default w,
    laws.default_ne,
  )

  abbrev scaling : Bool → D
  scaling true = doubles.text_scaling_large
  scaling false = doubles.text_scaling_default

  large_end :
      (b : Bool) (w : W)
      → (switch settings doubles large_text b w).1
        ≡ (doubles.set_double (schema large_text) (key large_text) (scaling b) w).1
  unfolding enable_large_text disable_large_text set_double_settings
  large_end true w = ground arith
  large_end false w = ground arith

  large_other :
      (g : Feature) (b : Bool) (w : W)
      → is_number g ≡ false
      → is_on settings doubles laws g (switch settings doubles large_text b w).1
        ≡ is_on settings doubles laws g w
  large_other g b w q =
      let end = (switch settings doubles large_text b w).1 in
      is_on_value g end q
      ∙ ap (λ v. sense g (laws.value (schema g) (key g) v)) (large_end b w)
      ∙ ap (sense g) (
          laws.set_double_value (schema large_text) (key large_text) (scaling b) (schema g) (key g)
            w)
      ∙ sym (is_on_value g w q)

  -- An operation on a number against a feature of each kind.
  large_Effect : (g : Feature) (b : Bool) (w : W) → Effect large_text g b w
  large_Effect large_text b w =
      (λ h. large_self b w ∙ rw h, λ h. large_self b w ∙ rw h, λ n. absurd (n refl))
  large_Effect g b w =
      (λ h. large_self b w ∙ rw h, λ h. large_other g b w refl, λ n. large_other g b w refl)

  mixed_Effect : (f : Feature) (b : Bool) (w : W) → is_number f ≡ false → Effect f large_text b w
  mixed_Effect f b w p = (
    λ h. write_effect f f b w p p ∙ rw (h, index_same f, sense-sense f b),
    λ h. number_effect f b w p,
    λ n. number_effect f b w p,
  )

  all_Effect : (f g : Feature) (b : Bool) (w : W) → Effect f g b w
  all_Effect large_text g b w = large_Effect g b w
  all_Effect f large_text b w = mixed_Effect f b w refl
  all_Effect f g b w = bool_Effect f g b w refl refl

  -- For any two features, where GSettings keeps its contract: a switch that returns no error makes
  -- its getter return what it was switched to; one that does not return so changes no getter's
  -- answer; and a switch of one feature never changes the answer of another's getter. The service
  -- has the schemas that its constructor sets.
  pub switch-get :
      (f g : Feature) (b : Bool) (w : W)
      → let end = switch settings doubles f b w in
        (is_ok end.0 ≡ true → (get settings doubles f end.1).0 ≡ ok b)
        × (is_ok end.0 ≡ false → (get settings doubles g end.1).0 ≡ (get settings doubles g w).0)
        × ((g ≡ f → ⊥) → (get settings doubles g end.1).0 ≡ (get settings doubles g w).0)
  switch-get f g b w =
      let (own, failed, others) = all_Effect f g b w in
      let end = (switch settings doubles f b w).1 in
      let on = λ (h : is_on settings doubles laws g end ≡ is_on settings doubles laws g w).
        get-is_on g end ∙ ap ok h ∙ sym (get-is_on g w) in
      (λ h. get-is_on f end ∙ ap ok (own h), λ h. on (failed h), λ n. on (others n))

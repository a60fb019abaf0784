-- ===== src/Timezone/Laws.antt =====
-- What the Timezone service accepts, and what it answers.
use ubuntu_installer_latest.Base.{
  Text, text_eq, text_eq→eq, text_eq_refl, true, false, ◌≡◌, some, List, [], ◌∷◌, inl, inr, arith,
  Bool-cases,
}
use ubuntu_installer_latest.Base.{
  Err, Result, ok, err, Variant, text, bool, is_ok, status, on_text, invalid_argument,
}
use mathlib.Core.List.{Memᴰ}
use ubuntu_installer_latest.System.{Bus}
use ubuntu_installer_latest.Timezone.{
  Service, timezone_property, list_timezones, set_timezone_method, is_valid_timezone, get_timezone,
  set_timezone,
}

-- The loop decides membership.
pub is_valid_timezone-Mem :
    (tz : Text) (zones : List Text) → is_valid_timezone tz zones ≡ true → Memᴰ tz zones
unfolding is_valid_timezone
is_valid_timezone-Mem tz [] h = absurd (cc)
is_valid_timezone-Mem tz (z ∷ zones) h = elim (Bool-cases (text_eq tz z)) [
  | inl e ↦ Memᴰ.head (text_eq→eq tz z e)
  | inr e ↦ Memᴰ.tail (is_valid_timezone-Mem tz zones (ground (arith, e)))
]

Mem-is_valid_timezone :
    (tz : Text) (zones : List Text) → Memᴰ tz zones → is_valid_timezone tz zones ≡ true
unfolding is_valid_timezone
Mem-is_valid_timezone tz [] m = elim m [ ]
Mem-is_valid_timezone tz (z ∷ zones) (Memᴰ.head e) = ground (arith, e, text_eq_refl tz)
Mem-is_valid_timezone tz (z ∷ zones) (Memᴰ.tail m) =
    ground (arith, Mem-is_valid_timezone tz zones m)

module _ {W : Type 0} (bus : Bus W) (s : Service) (tz : Text) (w : W) where
  abbrev listed : W
  listed = (bus.call s.timezone list_timezones [] w).1

  abbrev setting : Result Err (List Variant) × W
  setting = bus.call s.timezone set_timezone_method (text tz ∷ bool false ∷ []) listed

  module _ (body : List Variant) (zones : List Text)
      (lists : (bus.call s.timezone list_timezones [] w).0 ≡ ok body)
      (stores : bus.store_texts body ≡ ok zones) where
    -- Where timedated lists its timezones, `SetTimezone` succeeds exactly for those of them that
    -- timedated then sets.
    pub set_timezone_iff :
        ((set_timezone bus s (some tz) w).0 ≡ ok tt → Memᴰ tz zones × (is_ok setting.0 ≡ true))
        × (Memᴰ tz zones → is_ok setting.0 ≡ true → (set_timezone bus s (some tz) w).0 ≡ ok tt)
    unfolding set_timezone
    set_timezone_iff = (
      λ h. (is_valid_timezone-Mem tz zones (ground arith), ground arith),
      λ m k. ground (arith, Mem-is_valid_timezone tz zones m),
    )

    -- A timezone that is not listed is refused, and timedated is not called again.
    set_timezone-refuses :
        (Memᴰ tz zones → ⊥)
        → set_timezone bus s (some tz) w
          ≡ (err (status invalid_argument (on_text "invalid timezone: %s" tz)), listed)
    unfolding set_timezone
    set_timezone-refuses absent = elim (Bool-cases (is_valid_timezone tz zones)) [
      | inl e ↦ absurd (absent (is_valid_timezone-Mem tz zones e))
      | inr e ↦ ground (arith, e)
    ]

  -- After a `SetTimezone`, `GetTimezone` returns the timezone, if timedated reports what it has set.
  get_timezone-set_timezone :
      (is_ok setting.0 ≡ true
        → (bus.get_property s.timezone timezone_property setting.1).0 ≡ ok (text tz))
      → (set_timezone bus s (some tz) w).0 ≡ ok tt
      → (get_timezone bus s (some tt) (set_timezone bus s (some tz) w).1).0 ≡ ok tz
  unfolding set_timezone get_timezone
  get_timezone-set_timezone reports h = ground arith

-- ===== src/Testutils/Timedate/Laws.antt =====
-- The Timezone service over the mock of timedated.
use ubuntu_installer_latest.Base.{
  Text, codes, text_eq, Bool, false, ◌≡◌, refl, Bool-cases, inl, inr, arith, some, List, [], ◌∷◌,
  ◌++◌, if◌then◌else◌, ok, err, text, texts, bool, status, on_text, invalid_argument, replies,
}
use mathlib.Core.List.{Memᴰ}
use ubuntu_installer_latest.Base.Strings.{has_prefix}
use ubuntu_installer_latest.System.{Bus, dbus_timedate_prefix}
use ubuntu_installer_latest.Timezone.{
  Service, set_timezone, get_timezone, is_valid_timezone, list_timezones, set_timezone_method,
  timezone_property,
}
use ubuntu_installer_latest.Timezone.Laws.{is_valid_timezone-Mem}
use ubuntu_installer_latest.Testutils.Actions.{ActionFiles, write_action_to_file}
use ubuntu_installer_latest.Testutils.Timedate.{
  TimedateBus, mocked_timezones, mock_list_timezones, mock_set_timezone, mock_get_timezone,
}

-- The bus answers the calls of the Timezone service by the methods of the mock.
pub record ServesTimedate {W : Type 0} (bus : Bus W) (s : Service) (files : ActionFiles W)
    (t : TimedateBus) : Type 0 where
  pub serves_list :
      (w : W)
      → bus.call s.timezone list_timezones [] w
        ≡ replies (λ zones. texts zones ∷ []) (mock_list_timezones files t w)
  pub serves_set :
      (tz : Text) (b : Bool) (w : W)
      → bus.call s.timezone set_timezone_method (text tz ∷ bool b ∷ []) w
        ≡ replies (λ _. []) (mock_set_timezone files t tz b w)
  pub serves_get :
      (w : W)
      → bus.get_property s.timezone timezone_property w
        ≡ mock_get_timezone files t (codes dbus_timedate_prefix) (codes "Timezone") w
  pub stores : (zones : List Text) → bus.store_texts (texts zones ∷ []) ≡ ok zones

no_error : (tz : Text) → Memᴰ tz mocked_timezones → has_prefix tz (codes "error") ≡ false
unfolding has_prefix
no_error tz (Memᴰ.head e) = rw e refl
no_error tz (Memᴰ.tail (Memᴰ.head e)) = rw e refl
no_error tz (Memᴰ.tail (Memᴰ.tail (Memᴰ.head e))) = rw e refl
no_error tz (Memᴰ.tail (Memᴰ.tail (Memᴰ.tail m))) = elim m [ ]

module _ {W : Type 0} (bus : Bus W) (s : Service) (files : ActionFiles W) (t : TimedateBus)
    (serves : ServesTimedate bus s files t) (log : Text → W → W)
    (writes : (a : Text) (w : W) → write_action_to_file files a [] w ≡ (ok tt, log a w)) where
  -- Over the mock `timedate1`, a `SetTimezone` of one of the three mocked timezones succeeds and
  -- logs one action, any other is refused as invalid and logs nothing, and `GetTimezone` answers
  -- Africa/Johannesburg after both, whatever was set. The log is assumed to be writable.
  pub set_timezone-mock :
      (tz : Text) (w : W)
      → text_eq t.path (codes "gettimezoneserror") ≡ false
      → has_prefix t.path (codes "gettimezoneserror") ≡ false
      → let end = set_timezone bus s (some tz) w in
        (end ≡ (
          if is_valid_timezone tz mocked_timezones
          then (ok tt, log (codes "timedate1.SetTimezone: " ++ tz) w)
          else (err (status invalid_argument (on_text "invalid timezone: %s" tz)), w)))
        × (get_timezone bus s (some tt) end.1 ≡ (ok (codes "Africa/Johannesburg"), end.1))
  unfolding set_timezone get_timezone mock_list_timezones mock_set_timezone mock_get_timezone
  set_timezone-mock tz w p q = elim (Bool-cases (is_valid_timezone tz mocked_timezones)) [
    | inl v ↦ ground (
      arith,
      v,
      serves.serves_list w,
      serves.serves_set tz false w,
      serves.serves_get (log (codes "timedate1.SetTimezone: " ++ tz) w),
      serves.stores mocked_timezones,
      writes (codes "timedate1.SetTimezone: " ++ tz) w,
      no_error tz (is_valid_timezone-Mem tz mocked_timezones v),
    )
    | inr v ↦
        ground (arith, v, serves.serves_list w, serves.serves_get w, serves.stores mocked_timezones)
  ]

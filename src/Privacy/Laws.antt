-- ===== src/Privacy/Laws.antt =====
-- What the Privacy service does to the location settings.
use ubuntu_installer_latest.Base.{Bool, true, false, ◌≡◌, some, arith, ok, String, if◌then◌else◌}
use ubuntu_installer_latest.System.{Settings}
use ubuntu_installer_latest.Privacy.{
  Service, get_location_services, enable_location_services, disable_location_services,
}

-- The key `enabled` of a schema has a value, which only a successful write changes.
pub record EnabledLaws {W : Type 0} (settings : Settings W) (schema : String) : Type 0 where
  pub value : W → Bool
  pub get_value : (w : W) → (settings.get_boolean schema "enabled" w).0 ≡ value w
  pub set_value :
      (b : Bool) (w : W)
      → let r = settings.set_boolean schema "enabled" b w in
        value r.1 ≡ (if r.0 then b else value w)

module _ {W : Type 0} (settings : Settings W) (s : Service)
    (laws : EnabledLaws settings s.location_settings) (w : W) where
  get-enable :
      let end = enable_location_services settings s (some tt) w in
      (get_location_services settings s (some tt) end.1).0
      ≡ ok (elim end.0 [ ok _ ↦ true | _ ↦ laws.value w ])
  unfolding get_location_services enable_location_services
  get-enable =
      let r = settings.set_boolean s.location_settings "enabled" true w in
      ground (arith, laws.set_value true w, laws.get_value r.1)

  get-disable :
      let end = disable_location_services settings s (some tt) w in
      (get_location_services settings s (some tt) end.1).0
      ≡ ok (elim end.0 [ ok _ ↦ false | _ ↦ laws.value w ])
  unfolding get_location_services disable_location_services
  get-disable =
      let r = settings.set_boolean s.location_settings "enabled" false w in
      ground (arith, laws.set_value false w, laws.get_value r.1)

  -- After an `EnableLocationServices` without an error `GetLocationServices` answers that they are
  -- enabled, and after a `DisableLocationServices` without an error that they are not; after one with
  -- an error it answers what it did before. The key `enabled` is assumed to keep its value but for
  -- successful writes.
  pub get-switched :
      let on = enable_location_services settings s (some tt) w in
      let off = disable_location_services settings s (some tt) w in
      ((get_location_services settings s (some tt) on.1).0
        ≡ ok (elim on.0 [ ok _ ↦ true | _ ↦ laws.value w ]))
      × ((get_location_services settings s (some tt) off.1).0
          ≡ ok (elim off.0 [ ok _ ↦ false | _ ↦ laws.value w ]))
  get-switched = (get-enable, get-disable)

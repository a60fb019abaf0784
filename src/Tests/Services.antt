-- ===== src/Tests/Services.antt =====
-- Timezones, locales, location services, telemetry and the daemon's socket at concrete systems.
use ubuntu_installer_latest.Base.{
  Text, codes, text_eq, is_empty, ◌&&◌, Bool, true, false, ◌≡◌, refl, none, some, List, [], ◌∷◌,
  ◌++◌, arith, Err, Variant, text, texts, Result, ok, err, message,
}
use mathlib.Core.List.{Memᴰ}
use ubuntu_installer_latest.Base.Strings.{trim_space, fields, has_prefix, is_space}
use ubuntu_installer_latest.Base.Strings.Words.{IsWord}
use ubuntu_installer_latest.Base.Scanner.{File, scan}
use ubuntu_installer_latest.Base.Regexp.{all_in, find_group, drop_prefix}
use ubuntu_installer_latest.Base.Regexp.Laws.{Occurs}
use ubuntu_installer_latest.System.{Bus, Files, Settings}
use ubuntu_installer_latest.Timezone
use ubuntu_installer_latest.Timezone.{
  set_timezone, get_timezone, is_valid_timezone, set_timezone_method, list_timezones,
  timezone_object,
}
use ubuntu_installer_latest.Timezone.Laws.{set_timezone_iff}
use ubuntu_installer_latest.Locale
use ubuntu_installer_latest.Locale.{
  set_locale, get_locale, on_match, find_locale, utf8_suffix, is_locale_char, locale_property,
  is_locale_supported, scan_supported, on_fields, set_locale_method,
}
use ubuntu_installer_latest.Locale.Laws.{
  Lists, set_locale-Lists, get_locale-Occurs, get_locale-set_locale,
}
use ubuntu_installer_latest.Privacy
use ubuntu_installer_latest.Privacy.{
  get_location_services, enable_location_services, disable_location_services,
}
use ubuntu_installer_latest.Privacy.Laws.{EnabledLaws, get-switched}
use ubuntu_installer_latest.Telemetry.{
  Sysmetrics, sysmetrics_impl, new, collect_and_send, send_decline,
}
use ubuntu_installer_latest.Telemetry.Laws.{Reports, new-Reports}

-- The system keeps one text: a timezone, or a locale.
abbrev paris : Text
paris = codes "P"

abbrev rome : Text
rome = codes "R"

abbrev set_text : List Variant → Text → Result Err (List Variant) × Text
set_text (text t ∷ _) w = (ok [], t)
set_text (texts (t ∷ _) ∷ _) w = (ok [], t)
set_text _ w = (ok [], w)

abbrev printed : Variant → Text
printed (text t) = codes "[\"LANG=" ++ (t ++ codes "\"]")
printed _ = []

abbrev text_bus : Bus Text
text_bus = record {
  call = λ o m args w. set_text args w;
  get_property = λ o m w. (ok (text w), w);
  store_object_path = λ vs. err (message "no path");
  store_texts = λ vs. ok (paris ∷ rome ∷ []);
  variant_string = printed;
}

abbrev timezones : Timezone.Service
timezones = record { timezone = timezone_object }

set_timezone_iff_example :
    ((set_timezone text_bus timezones (some rome) paris).0 ≡ ok tt
      → Memᴰ rome (paris ∷ rome ∷ []) × (true ≡ true))
    × (Memᴰ rome (paris ∷ rome ∷ [])
        → true ≡ true
        → (set_timezone text_bus timezones (some rome) paris).0 ≡ ok tt)
set_timezone_iff_example =
    set_timezone_iff text_bus timezones rome paris [] (paris ∷ rome ∷ []) refl refl

not_listed : Memᴰ (codes "x") (paris ∷ rome ∷ []) → ⊥
not_listed (Memᴰ.head e) = ground (arith, e)
not_listed (Memᴰ.tail (Memᴰ.head e)) = ground (arith, e)
not_listed (Memᴰ.tail (Memᴰ.tail m)) = elim m [ ]

-- The file of supported locales.
abbrev supported : File
supported = record { content = codes "a_B.UTF-8 UTF-8\n\n"; read_error = none }

abbrev supported_files : Files Text
supported_files = record { open_file = λ p w. (ok supported, w) }

set_locale-Lists_example :
    IsWord 65535 (codes "a_B.UTF-8")
    × ((line : Text) × Memᴰ line (scan supported).tokens × Lists (codes "a_B.UTF-8") line)
unfolding set_locale is_locale_supported scan_supported on_fields scan trim_space fields is_space
    is_empty text_eq
set_locale-Lists_example =
    set_locale-Lists text_bus Locale.default_service supported_files (codes "a_B.UTF-8") supported
      [] [] refl refl

abbrev reply : Variant → Result Err Variant
reply v = ok v

get_locale-Occurs_example :
    (v : Variant) × (name : Text) × (ok (text (codes "a_B.UTF-8")) ≡ reply v)
    × (codes "a_B.UTF-8" ≡ name ++ utf8_suffix)
    × Occurs is_locale_char utf8_suffix name (printed v)
unfolding get_locale on_match find_locale find_group is_locale_char has_prefix is_empty drop_prefix
get_locale-Occurs_example =
    get_locale-Occurs text_bus Locale.default_service supported_files (codes "a_B.UTF-8")
      (codes "a_B.UTF-8") refl

get_locale-set_locale_example :
    (get_locale text_bus Locale.default_service (some tt) (codes "a_B.UTF-8")).0
    ≡ ok (codes "a_B.UTF-8")
unfolding set_locale is_locale_supported scan_supported on_fields scan trim_space fields is_space
    is_empty text_eq all_in is_locale_char
get_locale-set_locale_example =
    get_locale-set_locale text_bus Locale.default_service supported_files (codes "a_B")
      (codes "[\"") (codes "\"]") [] refl refl refl (λ u h. (text (codes "a_B.UTF-8"), refl, refl))
      refl

-- The settings are one value; it can be written once it is `true`.
abbrev one_value : Settings Bool
one_value = record {
  is_writable = λ schema key w. (true, w);
  set_boolean = λ schema key b w. (w, w && b);
  get_boolean = λ schema key w. (w, w);
}

one_value-laws : EnabledLaws one_value Privacy.default_service.location_settings
one_value-laws = record { value = λ w. w; get_value = λ w. refl; set_value = λ b w. ground arith }

get-switched_example :
    ((get_location_services one_value Privacy.default_service (some tt) false).0 ≡ ok false)
    × ((get_location_services one_value Privacy.default_service (some tt) false).0 ≡ ok false)
unfolding one_value-laws enable_location_services disable_location_services
get-switched_example = get-switched one_value Privacy.default_service one_value-laws false

-- A host that is not found, and a decline that is sent.
abbrev offline : Sysmetrics (Unit {0})
offline = record {
  package_collect = λ w. (ok [], w);
  package_collect_and_send = λ r b url w. (err (message "dial"), w);
  package_send_decline = λ b url w. (ok tt, w);
  error_string = λ e. codes "Post: dial tcp: lookup metrics.ubuntu.com: no such host";
}

new-Reports_example :
    let s = sysmetrics_impl offline in
    (new offline [] tt ≡ (ok s, tt))
    × Reports offline (err (message "dial"), tt) (collect_and_send s tt)
    × Reports offline (ok tt, tt) (send_decline s tt)
new-Reports_example = new-Reports offline tt

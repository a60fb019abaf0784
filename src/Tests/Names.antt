-- ===== src/Tests/Names.antt =====
-- ValidateUsername on a name that a file reserves, and on one that AccountsService does not know.
use ubuntu_installer_latest.User.Validate.Answers.{validate_username_total}
use ubuntu_installer_latest.Base.{is_ok, inr, some}
use ubuntu_installer_latest.Base.{
  codes, text_eq, is_empty, if◌then◌else◌, true, false, ◌≡◌, refl, none, List, [], ◌∷◌, Err,
  Variant, text, Result, ok, err, message, dbus_error,
}
use ubuntu_installer_latest.Base.Strings.{
  trim_space, contains, before, has_char, has_prefix, byte_len, rune_len, is_space,
}
use ubuntu_installer_latest.Base.Scanner.{File, scan}
use ubuntu_installer_latest.System.{Bus, Files}
use ubuntu_installer_latest.User.Service.{default_service}
use ubuntu_installer_latest.User.Validate.{
  matches_username, scan_file, scan_lines, is_first_char, is_name_char, all_name_chars, valid,
  validate_username, check_system, check_reserved, scan_group, look_up, on_found, on_body,
  on_reserved, error_failed,
}
use ubuntu_installer_latest.User.Validate.Verdict.{Says, validate_username-Says}

abbrev passwd : File
passwd = record { content = codes "#x\nab:c\n"; read_error = none }

abbrev group : File
group = record { content = codes "g:*:1\n"; read_error = none }

abbrev unknown_user : Result Err (List Variant)
unknown_user = err (dbus_error error_failed (text (codes "no ac") ∷ []))

abbrev no_users : Bus (Unit {0})
no_users = record {
  call = λ o m args w. (unknown_user, w);
  get_property = λ o m w. (err (message "no property"), w);
  store_object_path = λ vs. err (message "no path");
  store_texts = λ vs. ok [];
  variant_string = λ v. [];
}

abbrev base_files : Files (Unit {0})
base_files = record {
  open_file = λ p w.
      (ok (if text_eq p (codes "/usr/share/base-passwd/passwd.master") then passwd else group), w);
}

validate_username-Says_example : Says passwd group unknown_user (codes "ac") valid
unfolding text_eq validate_username check_system check_reserved scan_group scan_file scan_lines scan
    look_up on_found on_body on_reserved contains has_prefix trim_space is_space before has_char
    byte_len rune_len is_empty matches_username is_first_char all_name_chars is_name_char
validate_username-Says_example =
    validate_username-Says no_users base_files default_service passwd group (codes "ac") tt tt tt
      refl refl valid refl

validate_username_total_example :
    is_ok (validate_username no_users base_files default_service (some (codes "ac")) tt).0 ≡ true
unfolding scan_file scan_lines scan text_eq contains has_prefix trim_space is_space before has_char
    is_empty
validate_username_total_example =
    validate_username_total no_users base_files default_service passwd group (codes "ac") tt tt tt
      refl refl false false refl refl (inr (codes "no ac", [], refl, refl))

-- ===== src/User/Validate.antt =====
-- `ValidateUsername` and `scanFile` of user.go.
pub mod Reserved
pub mod Verdict
pub mod Answers
use ubuntu_installer_latest.Base.{
  ℕ, Text, codes, text_eq, is_empty, ltb, leb, ◌==◌, Bool, true, false, not, ◌&&◌, ◌||◌, Option,
  none, some, String, List, [], ◌∷◌, if◌then◌else◌,
}
use ubuntu_installer_latest.Base.{
  Err, Result, ok, err, panic, Run, Variant, text, dbus_error, on_text, on_err, invalid_argument,
  internal, status, status_err, status_message, or_status, catch, pure, throw, lift, index, ◌>>=◌,
  ◌>>◌,
}
use ubuntu_installer_latest.Base.Strings.{
  trim_space, has_prefix, contains, before, has_char, byte_len,
}
use ubuntu_installer_latest.Base.Scanner.{File, scan}
use ubuntu_installer_latest.System.{Bus, Files, member, dbus_accounts_prefix}
use ubuntu_installer_latest.User.Service.{Service}

-- The enum of user.proto.
pub data UsernameValidation : Type 0 where
  valid already_in_use system_reserved invalid_chars too_long empty : UsernameValidation

abbrev pub username_max_len : ℕ
username_max_len = 32

-- `[a-z_]`.
unfoldable pub is_first_char : ℕ → Bool
is_first_char c = (leb b'a' c && leb c b'z') || c == b'_'

-- `[a-z0-9_-]`.
unfoldable pub is_name_char : ℕ → Bool
is_name_char c = (leb b'a' c && leb c b'z') || (leb b'0' c && leb c b'9') || c == b'_' || c == b'-'

unfoldable pub all_name_chars : Text → Bool
all_name_chars [] = true
all_name_chars (c ∷ s) = is_name_char c && all_name_chars s

-- The match of `usernameRegex`, `^[a-z_][a-z0-9_-]*$`.
unfoldable pub matches_username : Text → Bool
matches_username [] = false
matches_username (c ∷ s) = is_first_char c && all_name_chars s

-- The loop of `scanFile`. `strings.SplitN(line, ":", 2)` has two fields if there is a colon, and the
-- first is what stands before it.
unfoldable pub scan_lines : List Text → Option Err → Text → Result Err Bool
scan_lines [] none username = ok false
scan_lines [] (some e) username = err e
scan_lines (raw ∷ rest) e username =
    let line = trim_space raw in
    let more = scan_lines rest e username in
    if has_prefix line (codes "#") || is_empty line
    then more
    else if has_char b':' line
    then (if text_eq (before b':' line) username then ok true else more)
    else err (on_text "invalid line format: %s" line)

unfoldable pub scan_file : File → Text → Result Err Bool
scan_file f username = scan_lines (scan f).tokens (scan f).error username

abbrev pub find_user_by_name : String
find_user_by_name = member dbus_accounts_prefix ".FindUserByName"

abbrev pub error_failed : Text
error_failed = codes "org.freedesktop.Accounts.Error.Failed"

module _ {W : Type 0} (bus : Bus W) (files : Files W) (s : Service) where
  -- The body of the error names the user that was not found.
  unfoldable pub on_body : Text → Text → Err → Variant → Run W Err UsernameValidation
  on_body username name e (text body) w =
      if not (text_eq name error_failed) || not (contains body username)
      then (err (status_err internal "dbus error: %v" e), w)
      else (ok valid, w)
  on_body username name e _ w = (err (status_err internal "unknown error: %v" e), w)

  -- What the answer of FindUserByName says of the name.
  unfoldable pub on_found : Text → Result Err (List Variant) → Run W Err UsernameValidation
  on_found username (ok _) = pure already_in_use
  on_found username (err (dbus_error name body)) = do
    first ← index body 0
    on_body username name (dbus_error name body) first
  on_found username (err e) = throw (status_err internal "unknown error: %v" e)
  on_found username panic = lift panic

  unfoldable pub look_up : Text → Run W Err UsernameValidation
  look_up username = do
    found ← catch (bus.call s.accounts find_user_by_name (text username ∷ []))
    on_found username found

  -- The second file is scanned if the first does not hold the name.
  unfoldable pub scan_group : Bool → File → Text → Run W Err Bool
  scan_group true f username = pure true
  scan_group false f username =
      or_status internal "error reading group.master file: %v" (lift (scan_file f username))

  unfoldable pub check_reserved : Text → Run W Err Bool
  check_reserved username = do
    passwd_file ←
        or_status internal "error opening passwd.master file: %v"
          (files.open_file s.passwd_master_path)
    group_file ←
        or_status internal "error opening group.master file: %v"
          (files.open_file s.group_master_path)
    in_passwd ←
        or_status internal "error reading passwd.master file: %v"
          (lift (scan_file passwd_file username))
    scan_group in_passwd group_file username

  unfoldable pub on_reserved : Text → Bool → Run W Err UsernameValidation
  on_reserved username true = pure system_reserved
  on_reserved username false = look_up username

  unfoldable pub check_system : Text → Run W Err UsernameValidation
  check_system username = do reserved ← check_reserved username; on_reserved username reserved

  -- The request is the field `username`; `none` is nil.
  unfoldable pub validate_username : Option Text → Run W Err UsernameValidation
  validate_username none w = (err (status_message invalid_argument "received a nil request"), w)
  validate_username (some username) w =
      if is_empty username
      then (ok empty, w)
      else if not (matches_username username)
      then (ok invalid_chars, w)
      else if ltb username_max_len (byte_len username)
      then (ok too_long, w)
      else check_system username w

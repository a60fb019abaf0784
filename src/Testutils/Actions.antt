-- ===== src/Testutils/Actions.antt =====
-- The log of the calls that the mocks have received: mock_utils.go.
pub mod Laws
use ubuntu_installer_latest.Base.{
  ℕ, Text, codes, List, [], ◌∷◌, ◌++◌, Err, Result, ok, err, panic, Run, on_err, map_err, pure,
  ◌>>=◌, ◌>>◌,
}

-- What the package os does with a file, by its path. `open_append` is `os.OpenFile` with the flags
-- O_APPEND, O_CREATE and O_WRONLY and the mode 0600.
pub record ActionFiles (W : Type 0) : Type 0 where
  pub open_append : Text → Run W Err (Unit {0})
  pub write_string : Text → Text → Run W Err (Unit {0})
  pub read_file : Text → Run W Err Text

pub record Options : Type 0 where
  pub file_path : Text

abbrev pub default_options : Options
default_options = record { file_path = codes "actions" }

unfoldable pub with_file_path : Text → Options → Options
with_file_path path o = record o { file_path = path ++ codes "/actions" }

unfoldable pub apply_options : List (Options → Options) → Options → Options
apply_options [] o = o
apply_options (opt ∷ opts) o = apply_options opts (opt o)

-- `os.Exit(1)` ends the process, as a panic does.
unfoldable pub or_exit : {W A : Type 0} → Result Err A × W → Result Err A × W
or_exit (ok a, w) = (ok a, w)
or_exit (_, w) = (panic, w)

abbrev pub exiting : {W A : Type 0} → Run W Err A → Run W Err A
exiting m w = or_exit (m w)

module _ {W : Type 0} (files : ActionFiles W) where
  unfoldable pub append_action : Text → Text → Run W Err (Unit {0})
  append_action path action = do
    exiting (files.open_append path)
    exiting (files.write_string path (action ++ codes "\n"))

  unfoldable pub write_action_to_file : Text → List (Options → Options) → Run W Err (Unit {0})
  write_action_to_file action opts =
      append_action (apply_options opts default_options).file_path action

  unfoldable pub read_action_from_file : List (Options → Options) → Run W Err Text
  read_action_from_file opts =
      map_err (on_err "failed to read file: %v")
        (files.read_file (apply_options opts default_options).file_path)

-- ===== src/Testutils/Golden.antt =====
-- The golden files of the tests: golden.go. A failed requirement ends the test, with its message.
pub mod Laws
use ubuntu_installer_latest.Base.{
  ℕ, Text, codes, is_empty, ◌==◌, Bool, Option, none, some, List, [], ◌∷◌, if◌then◌else◌, Err,
  Result, Run, Empty, on_err, map_err, pure, lift, ◌>>=◌, ◌>>◌,
}

-- What golden.go calls of the packages os, path/filepath and strings.
pub record GoldenFiles (W : Type 0) : Type 0 where
  pub mkdir_all : Text → ℕ → Run W Err Empty
  pub write_file : Text → Text → ℕ → Run W Err Empty
  pub read_file : Text → Run W Err Text
  pub join : Text → Text → Text
  pub directory : Text → Text
  pub to_lower : Text → Text

pub record GoldenOptions : Type 0 where
  pub golden_path : Text

unfoldable pub with_golden_path : Text → GoldenOptions → GoldenOptions
with_golden_path path o = if is_empty path then o else record o { golden_path = path }

unfoldable pub apply_options : List (GoldenOptions → GoldenOptions) → GoldenOptions → GoldenOptions
apply_options [] o = o
apply_options (opt ∷ opts) o = apply_options opts (opt o)

-- The two `strings.ReplaceAll`: a backslash is an underscore, and a colon goes.
unfoldable pub replaced : Text → Text
replaced [] = []
replaced (c ∷ s) =
    let rest = replaced s in
    if c == b'\\' then b'_' ∷ rest else if c == b':' then rest else c ∷ rest

-- The name before the first slash, and the name after it, if there is one.
unfoldable pub super_name : Text → Text
super_name [] = []
super_name (c ∷ s) = let rest = super_name s in if c == b'/' then [] else c ∷ rest

unfoldable pub sub_name : Text → Option Text
sub_name [] = none
sub_name (c ∷ s) = let rest = sub_name s in if c == b'/' then some s else rest

module _ {W : Type 0} (files : GoldenFiles W) where
  unfoldable pub normalize_golden_name : Text → Text
  normalize_golden_name name = files.to_lower (replaced name)

  unfoldable pub test_family_path : Text → Text
  test_family_path name = files.join (codes "testdata") (super_name name)

  unfoldable pub with_sub : Text → Option Text → Text
  with_sub path none = path
  with_sub path (some sub) = files.join path (normalize_golden_name sub)

  -- By the name of the test.
  unfoldable pub golden_path : Text → Text
  golden_path name = with_sub (files.join (test_family_path name) (codes "golden")) (sub_name name)

  unfoldable pub write_golden : Text → Text → Run W Err Empty
  write_golden path contents = do
    map_err (on_err "Cannot create directory for updating golden files")
        (files.mkdir_all (files.directory path) 0o750)
    map_err (on_err "Cannot write golden file") (files.write_file path contents 0o600)

  unfoldable pub update_golden : Bool → Text → Text → Run W Err Empty
  update_golden update path contents = if update then write_golden path contents else pure tt

  unfoldable pub load_at : Bool → Text → Text → Run W Err Text
  load_at update path contents = do
    update_golden update path contents
    map_err (on_err "Cannot load golden file") (files.read_file path)

  -- `update` is the flag, `name` that of the test.
  unfoldable pub load_with_update_from_golden :
      Bool → Text → Text → List (GoldenOptions → GoldenOptions) → Run W Err Text
  load_with_update_from_golden update name contents opts =
      load_at update (apply_options opts (record { golden_path = golden_path name })).golden_path
        contents

  -- `marshal` and `unmarshal` are those of yaml.v3, for the type of the value.
  unfoldable pub load_with_update_from_golden_yaml :
      {E : Type 0}
      → (E → Result Err Text)
      → (Text → Result Err E)
      → Bool
      → Text
      → E
      → List (GoldenOptions → GoldenOptions)
      → Run W Err E
  load_with_update_from_golden_yaml marshal unmarshal update name got opts = do
    contents ← map_err (on_err "Cannot serialize provided object") (lift (marshal got))
    want ← load_with_update_from_golden update name contents opts
    map_err (on_err "Cannot create expanded policy objects from golden file")
        (lift (unmarshal want))

-- ===== src/Testutils/Golden/Laws.antt =====
-- What a test reads of its golden file.
use ubuntu_installer_latest.Base.{ℕ, Text, true, false, ◌≡◌, arith, List, Err, Result, ok, is_ok}
use ubuntu_installer_latest.Testutils.Golden.{
  GoldenFiles, GoldenOptions, apply_options, golden_path, write_golden, update_golden, load_at,
  load_with_update_from_golden, load_with_update_from_golden_yaml,
}

-- A file that was written is read back, and reading changes nothing.
pub record WritesBack {W : Type 0} (files : GoldenFiles W) : Type 0 where
  pub reads :
      (path contents : Text) (mode : ℕ) (w : W)
      → is_ok (files.write_file path contents mode w).0 ≡ true
      → files.read_file path (files.write_file path contents mode w).1
        ≡ (ok contents, (files.write_file path contents mode w).1)

module _ {W : Type 0} (files : GoldenFiles W) (laws : WritesBack files) where
  load_at-update :
      (path contents later : Text) (w : W)
      → is_ok (load_at files true path contents w).0 ≡ true
      → ((load_at files true path contents w).0 ≡ ok contents)
        × ((load_at files false path later (load_at files true path contents w).1).0 ≡ ok contents)
  unfolding load_at update_golden write_golden
  load_at-update path contents later w h =
      let made = (files.mkdir_all (files.directory path) 0o750 w).1 in
      ground (arith, h, laws.reads path contents 0o600 made)

  -- A value that a run with the flag `update` serializes to a golden file is what that run reads back
  -- and what every later run of the test reads there, whatever it got itself: where the serialized
  -- value is deserialized to itself, the value of the later run can be serialized, and the files
  -- keep what is written.
  pub load_yaml-update :
      {E : Type 0} (marshal : E → Result Err Text) (unmarshal : Text → Result Err E) (name : Text)
      (opts : List (GoldenOptions → GoldenOptions)) (got later : E) (one two : Text) (w : W)
      → marshal got ≡ ok one
      → marshal later ≡ ok two
      → unmarshal one ≡ ok got
      → let load = load_with_update_from_golden_yaml files marshal unmarshal in
        is_ok (load true name got opts w).0 ≡ true
        → ((load true name got opts w).0 ≡ ok got)
          × ((load false name later opts (load true name got opts w).1).0 ≡ ok got)
  unfolding load_with_update_from_golden_yaml load_with_update_from_golden
  load_yaml-update marshal unmarshal name opts got later one two w m l u h =
      let path =
        (apply_options opts (record { golden_path = golden_path files name })).golden_path in
      ground (arith, m, l, u, h, load_at-update path one two w)

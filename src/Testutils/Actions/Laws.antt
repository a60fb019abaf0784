-- ===== src/Testutils/Actions/Laws.antt =====
-- The log holds what was written to it.
use ubuntu_installer_latest.Base.{Text, codes, List, ◌++◌, ◌≡◌, true, arith, is_ok, ok}
use ubuntu_installer_latest.Testutils.Actions.{
  ActionFiles, Options, default_options, apply_options, or_exit, append_action,
  write_action_to_file, read_action_from_file,
}

-- A file has a content: opening keeps it, a write that succeeds adds to its end, and a read that
-- succeeds returns it.
pub record ContentLaws {W : Type 0} (files : ActionFiles W) : Type 0 where
  pub content : Text → W → Text
  pub open-content : (p : Text) (w : W) → content p (files.open_append p w).1 ≡ content p w
  pub write-content :
      (p t : Text) (w : W)
      → is_ok (files.write_string p t w).0 ≡ true
      → content p (files.write_string p t w).1 ≡ content p w ++ t
  pub read_content : (p t : Text) (w : W) → (files.read_file p w).0 ≡ ok t → t ≡ content p w

module _ {W : Type 0} (files : ActionFiles W) (laws : ContentLaws files) where
  append_content :
      (p action : Text) (w : W)
      → is_ok (append_action files p action w).0 ≡ true
      → laws.content p (append_action files p action w).1
        ≡ laws.content p w ++ (action ++ codes "\n")
  unfolding append_action or_exit
  append_content p action w h =
      let v = (files.open_append p w).1 in
      ground (arith, laws.open-content p w, laws.write-content p (action ++ codes "\n") v)

  -- What is read of a log after an action has been written to it without an error is what was there
  -- before, the action, and a newline, for the same options of both.
  read-write_action :
      (action t : Text) (opts : List (Options → Options)) (w : W)
      → is_ok (write_action_to_file files action opts w).0 ≡ true
      → (read_action_from_file files opts (write_action_to_file files action opts w).1).0 ≡ ok t
      → t ≡ laws.content (apply_options opts default_options).file_path w ++ (action ++ codes "\n")
  unfolding write_action_to_file read_action_from_file
  read-write_action action t opts w h r =
      let p = (apply_options opts default_options).file_path in
      let v = (append_action files p action w).1 in
      ground (arith, append_content p action w, laws.read_content p t v)

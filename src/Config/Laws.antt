-- ===== src/Config/Laws.antt =====
-- Which variables of the environment the configuration binds.
use ubuntu_installer_latest.Base.{continue_ok}
use ubuntu_installer_latest.Base.{
  Text, true, false, List, [], ◌∷◌, ◌++◌, ◌≡◌, subst, sym, ap, ◌∙◌, Err, Result, Empty, catch,
  ◌>>=◌, is_ok, arith, Bool-cases, inl, inr,
}
use mathlib.Core.List.{Memᴰ, append_assoc}
use ubuntu_installer_latest.Base.Strings.{before, has_char, has_prefix}
use ubuntu_installer_latest.Base.Strings.Laws.{before-append}
use ubuntu_installer_latest.Base.Regexp.Laws.{has_prefix_append, drop_prefix-append}
use ubuntu_installer_latest.Config.{
  Viper, env_prefix, trim_prefix, dotted, bind_all, bind_environment, select_file, on_read, load,
  init_viper_config,
}

-- What is bound to a key is known of the states, a successful BindEnv binds, and none unbinds.
pub record BindLaws {W : Type 0} (viper : Viper W) : Type 1 where
  pub IsBound : Text → Text → W → Type 0
  pub binds :
      (k n : Text) (w : W)
      → is_ok (viper.bind_env k n w).0 ≡ true
      → IsBound k n (viper.bind_env k n w).1
  pub keeps : (k n l m : Text) (w : W) → IsBound k n w → IsBound k n (viper.bind_env l m w).1

module _ {W : Type 0} (viper : Viper W) (laws : BindLaws viper) (prefix : Text) where
  bind_step :
      (e : Text) (rest : List Text) (w : W)
      → has_prefix e prefix ≡ true
      → is_ok (bind_all viper prefix (e ∷ rest) w).0 ≡ true
      → let r = viper.bind_env (dotted (trim_prefix (before b'=' e) prefix)) (before b'=' e) w in
        (is_ok r.0 ≡ true) × (bind_all viper prefix (e ∷ rest) w ≡ bind_all viper prefix rest r.1)
  unfolding bind_all
  bind_step e rest w p h = (ground arith, ground arith)

  bind_skip :
      (e : Text) (rest : List Text) (w : W)
      → has_prefix e prefix ≡ false
      → bind_all viper prefix (e ∷ rest) w ≡ bind_all viper prefix rest w
  unfolding bind_all
  bind_skip e rest w p = ground arith

  bind_all_keeps :
      (k n : Text) (es : List Text) (w : W)
      → is_ok (bind_all viper prefix es w).0 ≡ true
      → laws.IsBound k n w
      → laws.IsBound k n (bind_all viper prefix es w).1
  unfolding bind_all
  bind_all_keeps k n [] w h b = b
  bind_all_keeps k n (e ∷ rest) w h b = elim (Bool-cases (has_prefix e prefix)) [
    | inl p ↦
        let (called, same) = bind_step e rest w p h in
        rw same (bind_all_keeps k n rest _ (ground (arith, same, h)) (laws.keeps k n _ _ w b))
    | inr p ↦
        rw (bind_skip e rest w p)
          (bind_all_keeps k n rest w (ground (arith, bind_skip e rest w p, h)) b)
  ]

  -- The entry of a variable of the program.
  abbrev entry : Text → Text → Text
  entry name value = prefix ++ (name ++ b'=' ∷ value)

  entry_name :
      (name value : Text)
      → has_char b'=' (prefix ++ name) ≡ false
      → before b'=' (entry name value) ≡ prefix ++ name
  entry_name name value h =
      ap (before b'=') (sym (append_assoc prefix name (b'=' ∷ value)))
      ∙ before-append b'=' (prefix ++ name) value h

  entry_key : (name : Text) → dotted (trim_prefix (prefix ++ name) prefix) ≡ dotted name
  unfolding trim_prefix
  entry_key name = rw (has_prefix_append prefix name, drop_prefix-append prefix name)

  bind_all-IsBound :
      (name value : Text) (es : List Text) (w : W)
      → has_char b'=' (prefix ++ name) ≡ false
      → Memᴰ (entry name value) es
      → is_ok (bind_all viper prefix es w).0 ≡ true
      → laws.IsBound (dotted name) (prefix ++ name) (bind_all viper prefix es w).1
  bind_all-IsBound name value [] w n m h = elim m [ ]
  bind_all-IsBound name value (e ∷ rest) w n (Memᴰ.head q) h =
      let p : has_prefix e prefix ≡ true =
        ap (λ t. has_prefix t prefix) (sym q) ∙ has_prefix_append prefix (name ++ b'=' ∷ value) in
      let (called, same) = bind_step e rest w p h in
      let v = (viper.bind_env (dotted (trim_prefix (before b'=' e) prefix)) (before b'=' e) w).1 in
      let is_name : before b'=' e ≡ prefix ++ name =
        ap (before b'=') (sym q) ∙ entry_name name value n in
      let bound : laws.IsBound (dotted name) (prefix ++ name) v =
        subst (λ t. laws.IsBound t (prefix ++ name) v) (entry_key name)
          (subst (λ t. laws.IsBound (dotted (trim_prefix t prefix)) t v) is_name
            (laws.binds _ _ w called)) in
      rw same (bind_all_keeps (dotted name) (prefix ++ name) rest v (ground (arith, same, h)) bound)
  bind_all-IsBound name value (e ∷ rest) w n (Memᴰ.tail m) h =
      elim (Bool-cases (has_prefix e prefix)) [
        | inl p ↦
            let (called, same) = bind_step e rest w p h in
            rw same (bind_all-IsBound name value rest _ n m (ground (arith, same, h)))
        | inr p ↦
            rw (bind_skip e rest w p)
              (bind_all-IsBound name value rest w n m (ground (arith, bind_skip e rest w p, h)))
      ]

module _ {W : Type 0} (viper : Viper W) (command : Text) where
  -- A loading that succeeds ends in a binding of the environment.
  load_ends :
      (w : W)
      → is_ok (load viper command w).0 ≡ true
      → (u : W) × (is_ok (bind_environment viper command u).0 ≡ true)
        × ((load viper command w).1 ≡ (bind_environment viper command u).1)
  unfolding load
  load_ends w h =
      let bind = bind_environment viper command in
      let after_read = λ (r : Result Err Empty). on_read viper r >>= λ _. bind in
      let reading = catch viper.read_in_config >>= after_read in
      let (flag, _, h1, e1) =
        continue_ok (λ r. select_file viper command r >>= λ _. reading)
          (catch {F = Err} viper.config_flag w) h in
      let w1 = (catch {F = Err} viper.config_flag w).1 in
      let (_, _, h2, e2) = continue_ok (λ _. reading) (select_file viper command flag w1) h1 in
      let w2 = (select_file viper command flag w1).1 in
      let (read, _, h3, e3) = continue_ok after_read (catch {F = Err} viper.read_in_config w2) h2 in
      let w3 = (catch {F = Err} viper.read_in_config w2).1 in
      let (_, _, h4, e4) = continue_ok (λ _. bind) (on_read viper read w3) h3 in
      ((on_read viper read w3).1, h4, e1 ∙ e2 ∙ e3 ∙ e4)

  init_ends :
      (w : W)
      → is_ok (init_viper_config viper command w).0 ≡ true
      → (is_ok (load viper command w).0 ≡ true)
        × ((init_viper_config viper command w).1 ≡ (load viper command w).1)
  unfolding init_viper_config
  init_ends w h = (ground arith, ground arith)

  -- After a loading of the configuration that returns no error, every variable of the environment
  -- whose name is the prefix of the command and a rest is bound, under the key that is the rest with
  -- dots for underscores. The environment is assumed not to change, and viper not to unbind.
  pub init_viper_config-IsBound :
      (laws : BindLaws viper) (name value : Text) (es : List Text) (w : W)
      → ((v : W) → viper.environ v ≡ es)
      → has_char b'=' (env_prefix command ++ name) ≡ false
      → Memᴰ (env_prefix command ++ (name ++ b'=' ∷ value)) es
      → is_ok (init_viper_config viper command w).0 ≡ true
      → laws.IsBound
          (dotted name)
          (env_prefix command ++ name)
          (init_viper_config viper command w).1
  unfolding bind_environment
  init_viper_config-IsBound laws name value es w same n m h =
      let (h1, e1) = init_ends w h in
      let (u, h2, e2) = load_ends w h1 in
      let v = viper.automatic_env (viper.set_env_prefix command u) in
      let p = env_prefix command in
      rw (e1, e2)
        (bind_all-IsBound viper laws p name value (viper.environ v) v n
          (subst (λ t. Memᴰ (p ++ (name ++ b'=' ∷ value)) t) (sym (same v)) m) h2)

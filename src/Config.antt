-- ===== src/Config.antt =====
-- The configuration of the program: provd/cmd/provd/daemon/config.go. An environment variable is an
-- entry `NAME=value` of `os.Environ`.
pub mod Laws
use ubuntu_installer_latest.Base.{
  ℕ, Text, codes, is_empty, leb, ◌==◌, ◌-◌, Bool, true, false, not, ◌&&◌, String, List, [], ◌∷◌,
  ◌++◌, if◌then◌else◌, Err, Result, ok, err, panic, Run, Empty, on_err, map_err, catch, pure, throw,
  lift, ◌>>=◌, ◌>>◌,
}
use ubuntu_installer_latest.Base.Strings.{before, has_prefix}
use ubuntu_installer_latest.Base.Regexp.{drop_prefix}

-- What the function uses of viper, cobra and the package os.
pub record Viper (W : Type 0) : Type 0 where
  pub config_flag : Run W Err Text
  pub executable : Run W Err Text
  pub directory : Text → Text
  pub environ : W → List Text
  pub set_config_file : Text → W → W
  pub set_config_name : Text → W → W
  pub add_config_path : Text → W → W
  pub read_in_config : Run W Err Empty
  pub is_not_found : Err → Bool
  pub set_env_prefix : Text → W → W
  pub automatic_env : W → W
  pub bind_env : Text → Text → Run W Err Empty

-- `strings.ToUpper` on ASCII, which the name of the command is.
unfoldable pub to_upper : Text → Text
to_upper [] = []
to_upper (c ∷ s) =
    let rest = to_upper s in if leb b'a' c && leb c b'z' then (c - 32) ∷ rest else c ∷ rest

unfoldable pub env_prefix : Text → Text
env_prefix name = to_upper name ++ codes "_"

-- `strings.TrimPrefix`.
unfoldable pub trim_prefix : Text → Text → Text
trim_prefix s prefix = if has_prefix s prefix then drop_prefix s prefix else s

-- `strings.ReplaceAll(s, "_", ".")`.
unfoldable pub dotted : Text → Text
dotted [] = []
dotted (c ∷ s) = let rest = dotted s in if c == b'_' then b'.' ∷ rest else c ∷ rest

module _ {W : Type 0} (viper : Viper W) where
  -- The loop over the environment. The first of the fields that `strings.Split(e, "=")` gives is
  -- what stands before the first equals sign.
  unfoldable pub bind_all : Text → List Text → Run W Err Empty
  bind_all prefix [] w = (ok tt, w)
  bind_all prefix (e ∷ rest) w =
      let name = before b'=' e in
      let more = bind_all prefix rest in
      if not (has_prefix e prefix)
      then more w
      else (do
        map_err (on_err "could not bind environment variable: %w")
            (viper.bind_env (dotted (trim_prefix name prefix)) name)
        more)
          w

  unfoldable pub add_binary : Result Err Text → W → W
  add_binary (ok path) w = viper.add_config_path (viper.directory path) w
  add_binary _ w = w

  unfoldable pub search_paths : Text → Run W Err Empty
  search_paths name w =
      let v = viper.add_config_path (codes "/etc/provd/") (
        viper.add_config_path (codes "$HOME/")
          (viper.add_config_path (codes "./") (viper.set_config_name name w))) in
      let (path, u) = viper.executable v in (ok tt, add_binary path u)

  unfoldable pub select_file : Text → Result Err Text → Run W Err Empty
  select_file name (ok path) w =
      if is_empty path then search_paths name w else (ok tt, viper.set_config_file path w)
  select_file name _ w = search_paths name w

  -- A file that is not found is no error.
  unfoldable pub on_read : Result Err Empty → Run W Err Empty
  on_read (ok _) w = (ok tt, w)
  on_read (err e) w =
      if viper.is_not_found e
      then (ok tt, w)
      else (err (on_err "invalid configuration file: %w" e), w)
  on_read panic w = (panic, w)

  unfoldable pub bind_environment : Text → Run W Err Empty
  bind_environment name w =
      let v = viper.automatic_env (viper.set_env_prefix name w) in
      bind_all (env_prefix name) (viper.environ v) v

  unfoldable pub load : Text → Run W Err Empty
  load name = do
    flag ← catch viper.config_flag
    select_file name flag
    read ← catch viper.read_in_config
    on_read read
    bind_environment name

  unfoldable pub init_viper_config : Text → Run W Err Empty
  init_viper_config name = map_err (on_err "can't load configuration") (load name)

-- ===== src/Tests/Configs.antt =====
-- The configuration on an environment of two variables.
use ubuntu_installer_latest.Base.{
  Text, codes, is_empty, true, refl, List, [], ◌∷◌, ok, err, message,
}
use mathlib.Core.List.{Memᴰ}
use ubuntu_installer_latest.Base.Strings.{before, has_char, has_prefix}
use ubuntu_installer_latest.Base.Regexp.{drop_prefix}
use ubuntu_installer_latest.Config.{
  Viper, to_upper, env_prefix, trim_prefix, dotted, bind_all, bind_environment, on_read,
  select_file, search_paths, add_binary, load, init_viper_config,
}
use ubuntu_installer_latest.Config.Laws.{BindLaws, init_viper_config-IsBound}

abbrev Bindings : Type 0
Bindings = List (Text × Text)

abbrev variables : List Text
variables = codes "HOME=/" ∷ codes "PD_A_B=c" ∷ []

abbrev environment : Viper Bindings
environment = record {
  config_flag = λ w. (ok [], w);
  executable = λ w. (err (message "no path"), w);
  directory = λ path. path;
  environ = λ w. variables;
  set_config_file = λ path w. w;
  set_config_name = λ name w. w;
  add_config_path = λ path w. w;
  read_in_config = λ w. (err (message "not found"), w);
  is_not_found = λ e. true;
  set_env_prefix = λ prefix w. w;
  automatic_env = λ w. w;
  bind_env = λ k n w. (ok tt, (k, n) ∷ w);
}

bind_laws : BindLaws environment
bind_laws = record {
  IsBound = λ k n w. Memᴰ (k, n) w;
  binds = λ k n w h. Memᴰ.head refl;
  keeps = λ k n l m w b. Memᴰ.tail b;
}

init_viper_config-IsBound_example :
    Memᴰ (codes "A.B", codes "PD_A_B") (init_viper_config environment (codes "pd") []).1
unfolding init_viper_config load bind_environment bind_all on_read select_file search_paths
    add_binary to_upper env_prefix trim_prefix dotted before has_char has_prefix drop_prefix
    is_empty bind_laws
init_viper_config-IsBound_example =
    init_viper_config-IsBound environment (codes "pd") bind_laws (codes "A_B") (codes "c") variables
      [] (λ v. refl) refl (Memᴰ.tail (Memᴰ.head refl)) refl

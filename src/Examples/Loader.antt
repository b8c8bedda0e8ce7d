-- ===== src/Examples/Loader.antt =====
-- A host with one configuration file and two variables.
use pingling.Prelude.{◌≡◌, refl, [], ◌∷◌, none, some, ok, false, str_eq, if◌then◌else◌}
use pingling.Prelude.Text.{strip_prefix, eq_ignore_ascii_case}
use pingling.Loader.{
  PinglingConfig, default_config, new_loader, Host, parse_bool_env, apply_override, apply_vars,
  apply_env_overrides, file_format, load_file, load_first, load_env, search_paths,
}
use pingling.Loader.Sources.{Loaded, load_env-Loaded}

abbrev laptop : Host
laptop = record {
  vars = ("HOME", "/root") ∷ ("PINGLING_CORE_TYPE", "xray") ∷ ("PINGLING_TRAY", "0") ∷ [];
  exists = λ path. str_eq path "/etc/config.yaml";
  config_dir = none;
  join = λ dir file. if str_eq file "config.yaml" then "/etc/config.yaml" else "/etc/config.json";
  extension = λ path. some "yaml";
  to_lowercase = λ s. s;
  build = λ base path form. ok (record base { log_level = "debug" });
}

abbrev loaded : PinglingConfig
loaded = record {
  core_type = "xray";
  core_binary_path = "";
  core_config_path = "";
  log_level = "debug";
  listen_addr = "127.0.0.1:8624";
  pid_file = "";
  tray = false;
  auto_connect = false;
  plugins = record { plugins_dir = ""; enabled = [] };
}

load_env-laptop : load_env (new_loader "demo") laptop ≡ ok loaded
unfolding load_env new_loader search_paths load_first load_file file_format apply_env_overrides
    apply_vars apply_override strip_prefix parse_bool_env default_config eq_ignore_ascii_case
load_env-laptop = refl

load_env-Loaded_example :
    Loaded (new_loader "demo") laptop (search_paths (new_loader "demo") laptop) loaded
load_env-Loaded_example = load_env-Loaded (new_loader "demo") laptop loaded load_env-laptop

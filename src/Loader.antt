-- ===== src/Loader.antt =====
-- `PinglingConfig` and `ConfigLoader` of crates/shared/config/src/lib.rs, on Unix.
--
-- The process and the crates `config` and `dirs` are the parameter `Host`: the environment in the
-- order of `std::env::vars`, the file system, and what a configuration file over the defaults is.
pub mod Overrides
pub mod Sources
use pingling.Prelude.{
  String, List, [], ◌∷◌, ◌++◌, Option, none, some, Result, ok, err, Bool, true, false, not, str_eq,
  ◌&&◌, ◌||◌, if◌then◌else◌,
}
use pingling.Prelude.Text.{format, is_empty, strip_prefix, eq_ignore_ascii_case}

pub record PluginsConfig : Type 0 where
  pub plugins_dir : String
  pub enabled : List String

pub record PinglingConfig : Type 0 where
  pub core_type : String
  pub core_binary_path : String
  pub core_config_path : String
  pub log_level : String
  pub listen_addr : String
  pub pid_file : String
  pub tray : Bool
  pub auto_connect : Bool
  pub plugins : PluginsConfig

unfoldable pub default_config : PinglingConfig
default_config = record {
  core_type = "sing-box";
  core_binary_path = "";
  core_config_path = "";
  log_level = "info";
  listen_addr = "127.0.0.1:8624";
  pid_file = "";
  tray = true;
  auto_connect = false;
  plugins = record { plugins_dir = ""; enabled = [] };
}

pub record ConfigLoader : Type 0 where
  pub app_name : String
  pub env_prefix : String
  pub include_system_paths : Bool

unfoldable pub new_loader : String → ConfigLoader
new_loader app_name = record {
  app_name = app_name;
  env_prefix = "PINGLING_";
  include_system_paths = true;
}

unfoldable pub with_env_prefix : ConfigLoader → String → ConfigLoader
with_env_prefix self prefix = record self { env_prefix = prefix }

unfoldable pub with_system_paths : ConfigLoader → Bool → ConfigLoader
with_system_paths self include = record self { include_system_paths = include }

pub data FileFormat : Type 0 where
  yaml json : FileFormat

pub record Host : Type 0 where
  pub vars : List (String × String)
  pub exists : String → Bool
  pub config_dir : Option String
  pub join : String → String → String
  pub extension : String → Option String
  pub to_lowercase : String → String
  -- The file in this format over the defaults: built and deserialised.
  pub build : PinglingConfig → String → FileFormat → Result PinglingConfig String

unfoldable pub parse_bool_env : String → Bool
parse_bool_env value =
    not (is_empty value) && not (str_eq value "0") && not (eq_ignore_ascii_case value "false")

-- `match rest { .. }`
unfoldable pub apply_override : String → String → PinglingConfig → PinglingConfig
apply_override rest value cfg =
    if str_eq rest "CORE_TYPE"
    then record cfg { core_type = value }
    else if str_eq rest "CORE_BINARY_PATH"
    then record cfg { core_binary_path = value }
    else if str_eq rest "CORE_CONFIG_PATH"
    then record cfg { core_config_path = value }
    else if str_eq rest "LOG_LEVEL"
    then record cfg { log_level = value }
    else if str_eq rest "LISTEN_ADDR"
    then record cfg { listen_addr = value }
    else if str_eq rest "PID_FILE"
    then record cfg { pid_file = value }
    else if str_eq rest "TRAY"
    then record cfg { tray = parse_bool_env value }
    else if str_eq rest "AUTO_CONNECT"
    then record cfg { auto_connect = parse_bool_env value }
    else cfg

-- The loop over the environment.
unfoldable pub apply_vars : String → List (String × String) → PinglingConfig → PinglingConfig
apply_vars prefix [] cfg = cfg
apply_vars prefix ((key, value) ∷ vars) cfg =
    apply_vars prefix vars
      (elim (strip_prefix prefix key) [ none ↦ cfg | some rest ↦ apply_override rest value cfg ])

unfoldable pub apply_env_overrides : ConfigLoader → Host → PinglingConfig → PinglingConfig
apply_env_overrides self host cfg = apply_vars self.env_prefix host.vars cfg

abbrev pub unwrap_or : {A : Type 0} → A → Option A → A
unwrap_or a none = a
unwrap_or a (some b) = b

unfoldable pub file_format : String → Result FileFormat String
file_format ext =
    if str_eq ext "yml" || str_eq ext "yaml"
    then ok yaml
    else if str_eq ext "json"
    then ok json
    else err (format ("unsupported config format: " ∷ ext ∷ []))

unfoldable pub load_file : ConfigLoader → Host → String → Result PinglingConfig String
load_file self host path =
    elim (file_format (host.to_lowercase (unwrap_or "yaml" (host.extension path)))) [
      | err e ↦ err e
      | ok form ↦ elim (host.build default_config path form) [
        | err e ↦ err e
        | ok cfg ↦ ok (apply_env_overrides self host cfg)
      ]
    ]

unfoldable pub load_env_only : ConfigLoader → Host → Result PinglingConfig String
load_env_only self host = ok (apply_env_overrides self host default_config)

abbrev pub config_files : Host → String → List String
config_files host dir = host.join dir "config.yaml" ∷ host.join dir "config.json" ∷ []

abbrev pub user_paths : Host → String → Option String → List String
user_paths host app_name none = []
user_paths host app_name (some config_dir) = config_files host (host.join config_dir app_name)

unfoldable pub search_paths : ConfigLoader → Host → List String
search_paths self host =
    user_paths host self.app_name host.config_dir
    ++ (if self.include_system_paths
        then config_files host (host.join "/etc" self.app_name)
        else [])

-- `for path in &default_paths { if path.exists() { return self.load_file(path); } }`
unfoldable pub load_first : ConfigLoader → Host → List String → Result PinglingConfig String
load_first self host [] = load_env_only self host
load_first self host (path ∷ paths) =
    if host.exists path then load_file self host path else load_first self host paths

unfoldable pub load_env : ConfigLoader → Host → Result PinglingConfig String
load_env self host = load_first self host (search_paths self host)

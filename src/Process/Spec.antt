-- ===== src/Process/Spec.antt =====
-- What a process core runs: `ProcessCoreSpec` of crates/cores/core-process/src/lib.rs, and the preset of
-- crates/cores/core-singbox/src/lib.rs.
use pingling.Prelude.{ℕ, ◌*◌, String, List, [], ◌∷◌, some}
use pingling.Prelude.BTreeMap.{BTreeMap}
use pingling.Config.Strategy.{Duration, StrategyPlan, system, doh, tcp, fixed}

pub data StopMode : Type 0 where
  kill : StopMode

-- `reaper_interval` is in nanoseconds.
pub record ProcessCoreSpec : Type 0 where
  pub id : String
  pub display_name : String
  pub version : String
  pub binary : String
  pub start_args : List String
  pub validate_args : List String
  pub env : BTreeMap String
  pub supported_protocols : List String
  pub stop_mode : StopMode
  pub reaper_interval : ℕ

unfoldable pub new_spec : String → String → ProcessCoreSpec
new_spec id binary = record {
  id = id;
  display_name = id;
  version = "process";
  binary = binary;
  start_args = "{config}" ∷ [];
  validate_args = [];
  env = [];
  supported_protocols = [];
  stop_mode = kill;
  reaper_interval = 500 * 1_000_000;
}

unfoldable pub with_display_name : ProcessCoreSpec → String → ProcessCoreSpec
with_display_name self value = record self { display_name = value }

unfoldable pub with_version : ProcessCoreSpec → String → ProcessCoreSpec
with_version self value = record self { version = value }

unfoldable pub with_start_args : ProcessCoreSpec → List String → ProcessCoreSpec
with_start_args self args = record self { start_args = args }

unfoldable pub with_validate_args : ProcessCoreSpec → List String → ProcessCoreSpec
with_validate_args self args = record self { validate_args = args }

unfoldable pub with_supported_protocols : ProcessCoreSpec → List String → ProcessCoreSpec
with_supported_protocols self protocols = record self { supported_protocols = protocols }

unfoldable pub singbox_process_spec : String → ProcessCoreSpec
singbox_process_spec binary =
    with_supported_protocols
      (with_validate_args
        (with_start_args
          (with_version (with_display_name (new_spec "sing-box" binary) "sing-box") "standalone")
          ("run" ∷ "-c" ∷ "{config}" ∷ []))
        ("check" ∷ "-c" ∷ "{config}" ∷ []))
      ("vmess" ∷ "vless" ∷ "trojan" ∷ "shadowsocks" ∷ "wireguard" ∷ "hysteria" ∷ "hysteria2"
        ∷ "tuic" ∷ [])

-- `Duration::from_secs`
unfoldable pub from_secs : ℕ → Duration
from_secs secs = secs * 1_000_000_000

unfoldable pub default_singbox_standalone_strategy_plan : StrategyPlan
default_singbox_standalone_strategy_plan = record {
  strategies =
      record {
        id = "default-doh";
        stack = system;
        resolver_type = doh;
        total_timeout = from_secs 25;
        retry = fixed 3 (from_secs 2);
      }
      ∷ record {
        id = "fallback-tcp";
        stack = system;
        resolver_type = tcp;
        total_timeout = from_secs 25;
        retry = fixed 2 (from_secs 3);
      }
      ∷ [];
  global_timeout = some (from_secs 60);
}

-- ===== src/Domain/PluginSlot.antt =====
-- The slot runner of the domain layer, crates/domain/src/traits/plugin_slot.rs: it runs a domain
-- plugin by `run_single_plugin_slot_chain_observed` of the host runtime, through adapters.
--
-- The observer is the list of what it was told: the adapter turns each observation of the runtime
-- into one of the domain, so that it tells what the runtime would, converted.
pub mod Errors
use pingling.Prelude.{
  ℕ, String, List, [], ◌∷◌, ◌++◌, map, Option, none, some, Result, ok, err, map_err, str_eq,
  if◌then◌else◌,
}
use pingling.Prelude.Text.{format}
use pingling.Contract.Failure.{HostFailure, HostResult}
use pingling.Contract.Slot.{
  Slot, new_slot, SlotPhase, before, exec, after, phase_str, SlotContext, SlotOutcome,
}
use pingling.Runtime.Plugin as Public
use pingling.Runtime.Plugin.{Serde, Env, event_str}
use pingling.Runtime.Loaded.{Invocation}
use pingling.Runtime.Single.{
  run_single_plugin_slot_chain_observed, run_single_plugin_slot_phase_observed,
}
use pingling.Domain.Error.{VpnError, to_string, code, invalid_configuration, unknown}

-- `Plugin` of traits/plugin.rs, as far as slots need it.
pub record Plugin (V W : Type 0) : Type 0 where
  pub name : String
  pub handle_ipc : String → V → W → Option (Result V VpnError) × W

pub record SlotObservation (V : Type 0) : Type 0 where
  pub slot : String
  pub phase : String
  pub wire_version : ℕ
  pub invocation_id : String
  pub event : String
  pub payload_json : V
  pub error_message : Option String

unfoldable pub host_failure_from_vpn_error : VpnError → HostFailure
host_failure_from_vpn_error e = record { code = code e; message = to_string e }

unfoldable pub vpn_error_from_host_failure : HostFailure → VpnError
vpn_error_from_host_failure f =
    if str_eq f.code "invalid_input" then invalid_configuration f.message else unknown f.message

unfoldable pub public_phase_from_str : String → Result SlotPhase VpnError
public_phase_from_str phase_name =
    if str_eq phase_name "before"
    then ok before
    else if str_eq phase_name "exec"
    then ok exec
    else if str_eq phase_name "after"
    then ok after
    else err (invalid_configuration (format ("unsupported slot phase `" ∷ phase_name ∷ "`" ∷ [])))

abbrev pub adapt_reply : {V : Type 0} → Option (Result V VpnError) → Option (HostResult V)
adapt_reply none = none
adapt_reply (some result) = some (map_err host_failure_from_vpn_error result)

module _ {V W : Type 0} where
  -- `PublicPluginAdapter`
  unfoldable pub adapt_plugin : Plugin V W → Public.Plugin V W
  adapt_plugin plugin = record {
    name = plugin.name;
    handle_ipc = λ method params world.
        let (reply, world') = plugin.handle_ipc method params world in (adapt_reply reply, world');
  }

module _ {V : Type 0} where
  -- `PublicObserverAdapter`
  unfoldable pub adapt_observation : Public.SlotObservation V → SlotObservation V
  adapt_observation o = record {
    slot = o.slot.name;
    phase = phase_str o.phase;
    wire_version = o.wire_version;
    invocation_id = o.invocation_id;
    event = event_str o.event;
    payload_json = o.payload_json;
    error_message = o.error_message;
  }

-- The world, and what the domain's observer was told.
pub record SlotEnv (V W : Type 0) : Type 0 where
  pub world : W
  pub told : List (SlotObservation V)

abbrev pub fresh : {V W : Type 0} → SlotEnv V W → Env V W
fresh env = record { world = env.world; observed = [] }

module _ {V P W : Type 0} where
  -- What a run of the public runtime is to the domain: `map_err`, and the adapted observations.
  unfoldable pub adapt_run :
      List (SlotObservation V)
      → HostResult (Option P) × Env V W
      → Result (Option P) VpnError × SlotEnv V W
  adapt_run told (result, env) = (
    map_err vpn_error_from_host_failure result,
    record { world = env.world; told = told ++ map adapt_observation env.observed },
  )

module _ {V P W : Type 0} (s : Serde V P) where
  unfoldable pub run_slot_chain_observed :
      Plugin V W → String → ℕ → String → P → SlotEnv V W → Result (Option P) VpnError × SlotEnv V W
  run_slot_chain_observed plugin slot_name wire_version invocation_id payload env =
      elim (map_err vpn_error_from_host_failure (new_slot slot_name)) [
        | err e ↦ (err e, env)
        | ok slot ↦ adapt_run env.told (
            run_single_plugin_slot_chain_observed s plugin.name (adapt_plugin plugin)
              (record { slot = slot; wire_version = wire_version; invocation_id = invocation_id })
              payload (fresh env))
      ]

  unfoldable pub run_slot_phase_observed :
      Plugin V W
      → String
      → String
      → ℕ
      → String
      → P
      → SlotEnv V W
      → Result (Option P) VpnError × SlotEnv V W
  run_slot_phase_observed plugin slot_name phase_name wire_version invocation_id payload env =
      elim (map_err vpn_error_from_host_failure (new_slot slot_name)) [
        | err e ↦ (err e, env)
        | ok slot ↦ elim (public_phase_from_str phase_name) [
          | err e ↦ (err e, env)
          | ok phase ↦ adapt_run env.told (
              run_single_plugin_slot_phase_observed s plugin.name (adapt_plugin plugin)
                (record { slot = slot; wire_version = wire_version; invocation_id = invocation_id })
                phase payload (fresh env))
        ]
      ]

  -- The shorter forms have `NullSlotObserver`: only the world comes back.
  unfoldable pub run_slot_chain :
      Plugin V W → String → ℕ → String → P → W → Result (Option P) VpnError × W
  run_slot_chain plugin slot_name wire_version invocation_id payload world =
      let (result, env) =
        run_slot_chain_observed plugin slot_name wire_version invocation_id payload
          (record { world = world; told = [] }) in
      (result, env.world)

  unfoldable pub run_slot_phase :
      Plugin V W → String → String → ℕ → String → P → W → Result (Option P) VpnError × W
  run_slot_phase plugin slot_name phase_name wire_version invocation_id payload world =
      let (result, env) =
        run_slot_phase_observed plugin slot_name phase_name wire_version invocation_id payload
          (record { world = world; told = [] }) in
      (result, env.world)

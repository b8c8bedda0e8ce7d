-- ===== src/Runtime/Plugin.antt =====
-- One plugin in one slot phase: `run_plugin_phase` and `apply_outcome`.
--
-- A plugin is a function of the method, the parameters and the world `W` that its calls may
-- change. What an observer is told is the list `observed`. `Serde` is what the code uses of
-- serde_json at the payload type `P`, with the `Display` text of its errors.
pub mod Policies
pub mod Observations
use pingling.Prelude.{
  ℕ, String, List, [], ◌∷◌, ◌++◌, Option, none, some, Bool, Result, ok, err, ◌||◌, if◌then◌else◌,
}
use pingling.Prelude.Text.{format}
use pingling.Contract.Failure.{HostFailure, HostResult, invalid_input, plugin_error, to_string}
use pingling.Contract.Slot.{
  Slot, SlotPhase, SlotPolicy, broadcast, best_effort, policy_eq, phase_str, SlotContext,
  new_context, SlotOutcome, unchanged, continue, halt, error, unhandled,
}

pub record Plugin (V W : Type 0) : Type 0 where
  pub name : String
  pub handle_ipc : String → V → W → Option (HostResult V) × W

pub data SlotEvent : Type 0 where
  enter skipped unhandled_event unchanged_event continue_event halt_event : SlotEvent
  error_event suppressed_error : SlotEvent

abbrev pub event_str : SlotEvent → String
event_str enter = "enter"
event_str skipped = "skipped"
event_str unhandled_event = "unhandled"
event_str unchanged_event = "unchanged"
event_str continue_event = "continue"
event_str halt_event = "halt"
event_str error_event = "error"
event_str suppressed_error = "suppressed_error"

pub record SlotObservation (V : Type 0) : Type 0 where
  pub plugin_id : String
  pub slot : Slot
  pub phase : SlotPhase
  pub policy : SlotPolicy
  pub wire_version : ℕ
  pub invocation_id : String
  pub event : SlotEvent
  pub payload_json : V
  pub error_message : Option String

pub record Serde (V P : Type 0) : Type 0 where
  pub context_to_value : SlotContext P → Result V String
  pub payload_field : V → V
  pub outcome_from_value : V → Result (SlotOutcome P) String
  pub payload_to_value : P → Result V String
  pub null : V

pub record Env (V W : Type 0) : Type 0 where
  pub world : W
  pub observed : List (SlotObservation V)

pub data PluginPhaseResult (P : Type 0) : Type 0 where
  not_handled : P → PluginPhaseResult P
  observed_only : P → PluginPhaseResult P
  handled : P → PluginPhaseResult P
  halted : P → PluginPhaseResult P

-- The arguments that every function here passes on.
pub record Call : Type 0 where
  pub plugin_id : String
  pub slot : Slot
  pub phase : SlotPhase
  pub policy : SlotPolicy
  pub wire_version : ℕ
  pub invocation_id : String

module _ {V : Type 0} where
  abbrev pub observation : Call → SlotEvent → V → Option String → SlotObservation V
  observation c event payload_json error_message = record {
    plugin_id = c.plugin_id;
    slot = c.slot;
    phase = c.phase;
    policy = c.policy;
    wire_version = c.wire_version;
    invocation_id = c.invocation_id;
    event = event;
    payload_json = payload_json;
    error_message = error_message;
  }

module _ {V W : Type 0} where
  abbrev pub observe : Call → SlotEvent → V → Option String → Env V W → Env V W
  observe c event payload_json message env = record env {
    observed = env.observed ++ observation c event payload_json message ∷ [];
  }

-- `slot.{slot}.{phase}` and `slot {slot}.{phase}: {what}`
unfoldable pub method_name : Call → String
method_name c = format ("slot." ∷ c.slot.name ∷ "." ∷ phase_str c.phase ∷ [])

unfoldable pub slot_message : Call → String → String
slot_message c what = format ("slot " ∷ c.slot.name ∷ "." ∷ phase_str c.phase ∷ ": " ∷ what ∷ [])

abbrev pub is_best_effort : Call → Bool
is_best_effort c = policy_eq c.policy best_effort

-- `matches!(policy, Broadcast | BestEffort)`
abbrev pub ignores_output : Call → Bool
ignores_output c = policy_eq c.policy broadcast || policy_eq c.policy best_effort

abbrev pub failure_event : Call → SlotEvent
failure_event c = if is_best_effort c then suppressed_error else error_event

module _ {V P : Type 0} (s : Serde V P) where
  abbrev pub json_or_null : P → V
  json_or_null p = elim (s.payload_to_value p) [ ok v ↦ v | err e ↦ s.null ]

  abbrev pub context : Call → P → SlotContext P
  context c payload =
      let ctx = new_context c.slot c.phase c.invocation_id payload in
      record ctx { wire_version = c.wire_version }

module _ {V P W : Type 0} (s : Serde V P) where
  unfoldable pub apply_outcome :
      Call → P → SlotOutcome P → V → Env V W → HostResult (PluginPhaseResult P) × Env V W
  apply_outcome c payload unhandled original env =
      (ok (not_handled payload), observe c unhandled_event original none env)
  apply_outcome c payload unchanged original env =
      (ok (observed_only payload), observe c unchanged_event original none env)
  apply_outcome c payload (continue new_payload) original env = (
    if ignores_output c then ok (observed_only payload) else ok (handled new_payload),
    observe c continue_event (json_or_null s new_payload) none env,
  )
  apply_outcome c payload (halt final_payload) original env = (
    if ignores_output c then ok (observed_only payload) else ok (halted final_payload),
    observe c halt_event (json_or_null s final_payload) none env,
  )
  apply_outcome c payload (error message) original env = (
    if is_best_effort c
        then ok (not_handled payload)
        else err (plugin_error (slot_message c message)),
    observe c (failure_event c) original (some message) env,
  )

  -- `match serde_json::from_value(raw)`
  unfoldable pub handle_outcome :
      Call
      → P
      → Result (SlotOutcome P) String
      → V
      → Env V W
      → HostResult (PluginPhaseResult P) × Env V W
  handle_outcome c payload (ok outcome) original env = apply_outcome c payload outcome original env
  handle_outcome c payload (err e) original env =
      let message = slot_message c (format ("parse outcome: " ∷ e ∷ [])) in
      if is_best_effort c
      then (ok (not_handled payload), observe c suppressed_error original (some message) env)
      else (err (plugin_error message), env)

  -- `match plugin.handle_ipc(..)`
  unfoldable pub handle_reply :
      Call → P → Option (HostResult V) → V → Env V W → HostResult (PluginPhaseResult P) × Env V W
  handle_reply c payload none original env =
      (ok (not_handled payload), observe c skipped original none env)
  handle_reply c payload (some (err e)) original env = (
    if is_best_effort c then ok (not_handled payload) else err e,
    observe c (failure_event c) original (some (to_string e)) env,
  )
  handle_reply c payload (some (ok raw)) original env =
      handle_outcome c payload (s.outcome_from_value raw) original env

  -- The call of the plugin, between the two observations.
  unfoldable pub call_plugin :
      Call → Plugin V W → P → V → Env V W → HostResult (PluginPhaseResult P) × Env V W
  call_plugin c plugin payload ctx_value env =
      let original = s.payload_field ctx_value in
      let entered = observe c enter original none env in
      let (reply, world) = plugin.handle_ipc (method_name c) ctx_value entered.world in
      handle_reply c payload reply original (record entered { world = world })

  unfoldable pub run_plugin_phase :
      Call → Plugin V W → P → Env V W → HostResult (PluginPhaseResult P) × Env V W
  run_plugin_phase c plugin payload env = elim (s.context_to_value (context s c payload)) [
    | err e ↦ (err (invalid_input (slot_message c (format ("serialize context: " ∷ e ∷ [])))), env)
    | ok ctx_value ↦ call_plugin c plugin payload ctx_value env
  ]

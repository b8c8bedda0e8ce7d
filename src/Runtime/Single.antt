-- ===== src/Runtime/Single.antt =====
-- `run_single_plugin_slot_chain_observed` and its shorter forms: one plugin, outside any registry.
use pingling.Prelude.{String, List, [], ◌∷◌, Option, none, some, Bool, true, false, ok, err}
use pingling.Contract.Failure.{HostResult}
use pingling.Contract.Slot.{SlotPhase, pipeline, phase_order}
use pingling.Runtime.Plugin.{
  Plugin, Serde, Env, Call, PluginPhaseResult, not_handled, observed_only, handled, halted,
  run_plugin_phase,
}
use pingling.Runtime.Loaded.{Invocation, Rest, chain_end}

abbrev pub single_call : String → Invocation → SlotPhase → Call
single_call plugin_id i phase = record {
  plugin_id = plugin_id;
  slot = i.slot;
  phase = phase;
  policy = pipeline;
  wire_version = i.wire_version;
  invocation_id = i.invocation_id;
}

module _ {P : Type 0} where
  abbrev pub single_payload : HostResult (PluginPhaseResult P) → HostResult (Option P)
  single_payload (err e) = err e
  single_payload (ok (not_handled p)) = ok none
  single_payload (ok (observed_only p)) = ok (some p)
  single_payload (ok (handled p)) = ok (some p)
  single_payload (ok (halted p)) = ok (some p)

module _ {V P W : Type 0} where
  unfoldable pub after_single :
      Rest V P W (Option P)
      → Bool
      → HostResult (PluginPhaseResult P)
      → Env V W
      → HostResult (Option P) × Env V W
  after_single rest any_handled (err e) env = (err e, env)
  after_single rest any_handled (ok (not_handled next)) env = rest next any_handled env
  after_single rest any_handled (ok (observed_only next)) env = rest next true env
  after_single rest any_handled (ok (handled next)) env = rest next true env
  after_single rest any_handled (ok (halted final)) env = (ok (some final), env)

module _ {V P W : Type 0} (s : Serde V P) where
  unfoldable pub run_single_phases :
      String
      → Plugin V W
      → Invocation
      → List SlotPhase
      → P
      → Bool
      → Env V W
      → HostResult (Option P) × Env V W
  run_single_phases id plugin i [] payload any_handled env = (chain_end payload any_handled, env)
  run_single_phases id plugin i (phase ∷ phases) payload any_handled env =
      let (result, env') = run_plugin_phase s (single_call id i phase) plugin payload env in
      after_single (run_single_phases id plugin i phases) any_handled result env'

  unfoldable pub run_single_plugin_slot_chain_observed :
      String → Plugin V W → Invocation → P → Env V W → HostResult (Option P) × Env V W
  run_single_plugin_slot_chain_observed id plugin i payload env =
      run_single_phases id plugin i phase_order payload false env

  unfoldable pub run_single_plugin_slot_chain :
      String → Plugin V W → Invocation → P → W → HostResult (Option P) × W
  run_single_plugin_slot_chain id plugin i payload world =
      let (result, env) =
        run_single_plugin_slot_chain_observed id plugin i payload
          (record { world = world; observed = [] }) in
      (result, env.world)

  unfoldable pub run_single_plugin_slot_phase_observed :
      String → Plugin V W → Invocation → SlotPhase → P → Env V W → HostResult (Option P) × Env V W
  run_single_plugin_slot_phase_observed id plugin i phase payload env =
      let (result, env') = run_plugin_phase s (single_call id i phase) plugin payload env in
      (single_payload result, env')

  unfoldable pub run_single_plugin_slot_phase :
      String → Plugin V W → Invocation → SlotPhase → P → W → HostResult (Option P) × W
  run_single_plugin_slot_phase id plugin i phase payload world =
      let (result, env) =
        run_single_plugin_slot_phase_observed id plugin i phase payload
          (record { world = world; observed = [] }) in
      (result, env.world)

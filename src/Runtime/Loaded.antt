-- ===== src/Runtime/Loaded.antt =====
-- `LoadedPluginRegistry`: registration, method dispatch, phases and chains.
pub mod Single
pub mod Register
pub mod Dispatch
pub mod Visits
pub mod Calls
use pingling.Prelude.{
  ℕ, String, List, [], ◌∷◌, Option, none, some, Bool, true, false, Result, ok, err, ◌>>=◌,
  if◌then◌else◌, ◌&&◌,
}
use pingling.Prelude.Text.{format}
use pingling.Prelude.BTreeMap.{BTreeMap, get, insert}
use pingling.Contract.Failure.{HostFailure, HostResult, plugin_error}
use pingling.Contract.Slot.{Slot, SlotPhase, SlotPolicy, first_success, policy_eq, phase_order}
use pingling.Contract.Package.{Json}
use pingling.Contract.Manifest.{PluginManifest}
use pingling.Contract.Registry.{
  PluginRegistry, PluginBinding, MethodBinding, empty_registry, bindings_for, method_bindings,
}
use pingling.Contract.Registry as Registry
use pingling.Runtime.Plugin.{
  Plugin, Serde, Env, Call, PluginPhaseResult, not_handled, observed_only, handled, halted,
  run_plugin_phase,
}

pub record LoadedPluginRegistry (V W : Type 0) : Type 0 where
  pub registry : PluginRegistry V
  pub plugins : BTreeMap (Plugin V W)

unfoldable pub not_loaded : String → HostFailure
not_loaded id = plugin_error (format ("plugin " ∷ id ∷ " is indexed but not loaded" ∷ []))

module _ {V W : Type 0} where
  unfoldable pub empty_loaded : LoadedPluginRegistry V W
  empty_loaded = record { registry = empty_registry; plugins = [] }

  module _ ⦃j : Json V⦄ where
    unfoldable pub register :
        LoadedPluginRegistry V W
        → PluginManifest V
        → Plugin V W
        → HostResult (LoadedPluginRegistry V W)
    register r m plugin = Registry.register r.registry m >>= λ registry.
        ok (record { registry = registry; plugins = insert m.id plugin r.plugins })

  -- The world that the calls leave comes back with the answer.
  unfoldable pub dispatch_method_bindings :
      LoadedPluginRegistry V W → List MethodBinding → String → V → W → Option (HostResult V) × W
  dispatch_method_bindings r [] method params world = (none, world)
  dispatch_method_bindings r (b ∷ bs) method params world = elim (get r.plugins b.plugin_id) [
    | none ↦ (some (err (not_loaded b.plugin_id)), world)
    | some plugin ↦
        let (reply, world') = plugin.handle_ipc method params world in
        let rest = dispatch_method_bindings r bs method params world' in
        elim reply [ some result ↦ (some result, world') | none ↦ rest ]
  ]

  module _ ⦃j : Json V⦄ where
    unfoldable pub dispatch_method :
        LoadedPluginRegistry V W → String → V → W → Option (HostResult V) × W
    dispatch_method r method params world =
        dispatch_method_bindings r (method_bindings r.registry method) method params world

pub data PhaseResult (P : Type 0) : Type 0 where
  phase_unhandled phase_handled phase_halted : P → PhaseResult P

-- The arguments of a run that stay the same throughout.
pub record Invocation : Type 0 where
  pub slot : Slot
  pub wire_version : ℕ
  pub invocation_id : String

abbrev pub binding_call : Invocation → SlotPhase → PluginBinding → Call
binding_call i phase b = record {
  plugin_id = b.plugin_id;
  slot = i.slot;
  phase = phase;
  policy = b.policy;
  wire_version = i.wire_version;
  invocation_id = i.invocation_id;
}

module _ {P : Type 0} where
  -- The end of `run_slot_phase_observed`.
  abbrev pub phase_end : P → Bool → HostResult (PhaseResult P)
  phase_end payload any_handled =
      if any_handled then ok (phase_handled payload) else ok (phase_unhandled payload)

  abbrev pub phase_payload : HostResult (PhaseResult P) → HostResult (Option P)
  phase_payload (err e) = err e
  phase_payload (ok (phase_unhandled p)) = ok none
  phase_payload (ok (phase_handled p)) = ok (some p)
  phase_payload (ok (phase_halted p)) = ok (some p)

  abbrev pub chain_end : P → Bool → HostResult (Option P)
  chain_end payload any_handled = ok (if any_handled then some payload else none)

-- What is left of a loop, from its payload and its `any_handled`.
abbrev pub Rest : (V P W R : Type 0) → Type 0
Rest V P W R = P → Bool → Env V W → HostResult R × Env V W

module _ {V P W : Type 0} where
  -- The `match` on what one plugin did; `rest` is the loop over the bindings that are left.
  unfoldable pub after_plugin :
      SlotPolicy
      → Rest V P W (PhaseResult P)
      → Bool
      → HostResult (PluginPhaseResult P)
      → Env V W
      → HostResult (PhaseResult P) × Env V W
  after_plugin policy rest any_handled (err e) env = (err e, env)
  after_plugin policy rest any_handled (ok (not_handled next)) env = rest next any_handled env
  after_plugin policy rest any_handled (ok (observed_only next)) env = rest next true env
  after_plugin policy rest any_handled (ok (handled next)) env =
      if policy_eq policy first_success then (phase_end next true, env) else rest next true env
  after_plugin policy rest any_handled (ok (halted final)) env = (ok (phase_halted final), env)

  unfoldable pub after_phase :
      Rest V P W (Option P)
      → Bool
      → HostResult (PhaseResult P)
      → Env V W
      → HostResult (Option P) × Env V W
  after_phase rest any_handled (err e) env = (err e, env)
  after_phase rest any_handled (ok (phase_unhandled next)) env = rest next any_handled env
  after_phase rest any_handled (ok (phase_handled next)) env = rest next true env
  after_phase rest any_handled (ok (phase_halted final)) env = (ok (some final), env)

module _ {V P W : Type 0} (s : Serde V P) where
  unfoldable pub run_bindings :
      LoadedPluginRegistry V W
      → Invocation
      → SlotPhase
      → List PluginBinding
      → P
      → Bool
      → Env V W
      → HostResult (PhaseResult P) × Env V W
  run_bindings r i phase [] payload any_handled env = (phase_end payload any_handled, env)
  run_bindings r i phase (b ∷ bs) payload any_handled env = elim (get r.plugins b.plugin_id) [
    | none ↦ (err (not_loaded b.plugin_id), env)
    | some plugin ↦
        let (result, env') = run_plugin_phase s (binding_call i phase b) plugin payload env in
        after_plugin b.policy (run_bindings r i phase bs) any_handled result env'
  ]

  unfoldable pub run_slot_phase_observed :
      LoadedPluginRegistry V W
      → Invocation
      → SlotPhase
      → P
      → Env V W
      → HostResult (PhaseResult P) × Env V W
  run_slot_phase_observed r i phase payload env =
      run_bindings r i phase (bindings_for r.registry i.slot phase) payload false env

  -- Its observer is the one that ignores what it is told: only the world comes back.
  unfoldable pub run_slot_phase :
      LoadedPluginRegistry V W → Invocation → SlotPhase → P → W → HostResult (Option P) × W
  run_slot_phase r i phase payload world =
      let (result, env) =
        run_slot_phase_observed r i phase payload (record { world = world; observed = [] }) in
      (phase_payload result, env.world)

  -- The loop of `run_slot_chain_observed` over the phases that are left.
  unfoldable pub run_phases :
      LoadedPluginRegistry V W
      → Invocation
      → List SlotPhase
      → P
      → Bool
      → Env V W
      → HostResult (Option P) × Env V W
  run_phases r i [] payload any_handled env = (chain_end payload any_handled, env)
  run_phases r i (phase ∷ phases) payload any_handled env =
      let (result, env') = run_slot_phase_observed r i phase payload env in
      after_phase (run_phases r i phases) any_handled result env'

  unfoldable pub run_slot_chain_observed :
      LoadedPluginRegistry V W → Invocation → P → Env V W → HostResult (Option P) × Env V W
  run_slot_chain_observed r i payload env = run_phases r i phase_order payload false env

  unfoldable pub run_slot_chain :
      LoadedPluginRegistry V W → Invocation → P → W → HostResult (Option P) × W
  run_slot_chain r i payload world =
      let (result, env) =
        run_slot_chain_observed r i payload (record { world = world; observed = [] }) in
      (result, env.world)

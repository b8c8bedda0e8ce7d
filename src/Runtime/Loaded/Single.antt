-- ===== src/Runtime/Loaded/Single.antt =====
-- A registry that holds one pipeline plugin runs a chain as the functions for a single plugin do.
use pingling.Prelude.{
  String, ◌≡◌, refl, ◌∙◌, ap, List, [], ◌∷◌, Bool, false, Option, some, ok, err, arith, eq_refl,
  fun_ext,
}
use pingling.Prelude.BTreeMap.{get, insert}
use pingling.Prelude.Sort.{sort_by}
use pingling.Prelude.Int.{ℤ}
use pingling.Contract.Failure.{HostResult}
use pingling.Contract.Slot.{
  Slot, SlotPhase, before, exec, after, pipeline, phase_order, contains_phase, SlotBinding,
}
use pingling.Contract.Package.{Json}
use pingling.Contract.Manifest.{PluginManifest}
use pingling.Contract.Registry.{
  PluginBinding, bindings_for, all_bindings, slot_bindings, empty_registry,
}
use pingling.Runtime.Plugin.{
  Plugin, Serde, Env, PluginPhaseResult, not_handled, observed_only, handled, halted,
  run_plugin_phase,
}
use pingling.Runtime.Loaded.{
  LoadedPluginRegistry, Invocation, Rest, register, empty_loaded, run_bindings,
  run_slot_phase_observed, run_phases, run_slot_chain_observed, after_plugin, after_phase,
  phase_end,
}
use pingling.Runtime.Loaded.Register.{register-inv}
use pingling.Runtime.Single.{
  run_single_phases, run_single_plugin_slot_chain_observed, after_single, single_call,
}

module _ {V P W : Type 0} where
  -- The end of the phase of one plugin, seen from the chain.
  after_phase_single :
      (id : String) (rest : Rest V P W (Option P)) (any_handled : Bool)
      (result : HostResult (PluginPhaseResult P)) (env : Env V W)
      → (let (r, env') =
            after_plugin pipeline (λ payload h e. (phase_end payload h, e)) false result env in
          after_phase rest any_handled r env')
        ≡ after_single rest any_handled result env
  unfolding after_phase after_plugin after_single
  after_phase_single id rest h (err e) env = refl
  after_phase_single id rest h (ok (not_handled p)) env = refl
  after_phase_single id rest h (ok (observed_only p)) env = refl
  after_phase_single id rest h (ok (handled p)) env = refl
  after_phase_single id rest h (ok (halted p)) env = refl

-- The binding of a plugin that declares the slot as a pipeline.
abbrev piped : String → ℤ → Slot → SlotPhase → PluginBinding
piped id priority slot phase = record {
  plugin_id = id;
  priority = priority;
  slot = slot;
  phase = phase;
  policy = pipeline;
}

module _ {V P W : Type 0} (s : Serde V P) (r : LoadedPluginRegistry V W) (i : Invocation)
    (id : String) (priority : ℤ) (plugin : Plugin V W)
    (alone : (phase : SlotPhase)
      → bindings_for r.registry i.slot phase ≡ piped id priority i.slot phase ∷ [])
    (loaded : get r.plugins id ≡ some plugin) where
  phase-eq-single :
      (phase : SlotPhase) (payload : P) (env : Env V W)
      → run_slot_phase_observed s r i phase payload env ≡ (
          let (result, env') = run_plugin_phase s (single_call id i phase) plugin payload env in
          after_plugin pipeline (λ payload h e. (phase_end payload h, e)) false result env')
  unfolding run_slot_phase_observed run_bindings
  phase-eq-single phase payload env = rw (alone phase, loaded, run_bindings)

  phases-eq-single :
      (phases : List SlotPhase) (payload : P) (any_handled : Bool) (env : Env V W)
      → run_phases s r i phases payload any_handled env
        ≡ run_single_phases s id plugin i phases payload any_handled env
  unfolding run_phases run_single_phases
  phases-eq-single [] payload any_handled env = refl
  phases-eq-single (phase ∷ phases) payload any_handled env =
      rw (phase-eq-single phase payload env) (
        after_phase_single id (run_phases s r i phases) any_handled _ _
        ∙ ap
            (λ (rest : Rest V P W (Option P)).
              let (result, env') = run_plugin_phase s (single_call id i phase) plugin payload env in
              after_single rest any_handled result env')
            (fun_ext λ p. fun_ext λ h. fun_ext λ e. phases-eq-single phases p h e))

  pub chain-eq-single :
      (payload : P) (env : Env V W)
      → run_slot_chain_observed s r i payload env
        ≡ run_single_plugin_slot_chain_observed s id plugin i payload env
  unfolding run_slot_chain_observed run_single_plugin_slot_chain_observed
  chain-eq-single payload env = phases-eq-single phase_order payload false env

-- A slot entry for every phase, as a pipeline.
abbrev pub whole_slot : Slot → SlotBinding
whole_slot slot = record { name = slot; phases = phase_order; policy = pipeline }

module _ {V P W : Type 0} ⦃j : Json V⦄ (s : Serde V P) (i : Invocation) (m : PluginManifest V)
    (plugin : Plugin V W) where
  abbrev lone : LoadedPluginRegistry V W
  lone = record { registry = record { plugins = (m.id, m) ∷ [] }; plugins = (m.id, plugin) ∷ [] }

  lone-alone :
      m.slots ≡ whole_slot i.slot ∷ []
      → (phase : SlotPhase)
      → bindings_for lone.registry i.slot phase ≡ piped m.id m.priority i.slot phase ∷ []
  unfolding bindings_for all_bindings slot_bindings contains_phase sort_by
  lone-alone e before = rw (e, slot_bindings) (simp eq_refl)
  lone-alone e exec = rw (e, slot_bindings) (simp eq_refl)
  lone-alone e after = rw (e, slot_bindings) (simp eq_refl)

  register-lone : (r : LoadedPluginRegistry V W) → register empty_loaded m plugin ≡ ok r → r ≡ lone
  unfolding register empty_loaded insert empty_registry
  register-lone r h =
      let (done, plugins) = register-inv empty_loaded m plugin r h in ground (arith, done.result)

  -- A registry that holds a single plugin, which declares the slot as a pipeline in every phase,
  -- runs the chain as `run_single_plugin_slot_chain_observed` does: the same answer, the same
  -- calls and the same observations.
  pub chain_of_one_plugin :
      (r : LoadedPluginRegistry V W) (payload : P) (env : Env V W)
      → register empty_loaded m plugin ≡ ok r
      → m.slots ≡ whole_slot i.slot ∷ []
      → run_slot_chain_observed s r i payload env
        ≡ run_single_plugin_slot_chain_observed s m.id plugin i payload env
  unfolding get
  chain_of_one_plugin r payload env h e =
      rw (register-lone r h)
        (chain-eq-single s lone i m.id m.priority plugin (lone-alone e) (simp eq_refl) payload env)

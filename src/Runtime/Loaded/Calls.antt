-- ===== src/Runtime/Loaded/Calls.antt =====
-- Which calls a phase makes: a run with logged plugins is the run without the log.
use pingling.Prelude.{
  String, ◌≡◌, refl, List, [], ◌∷◌, Bool, none, some, Option, eq_iff, ok, err, str_eq, true, false,
  arith, Result-cases, Option-cases, Bool-cases, inl, inr,
}
use pingling.Prelude.BTreeMap.{BTreeMap, get}
use pingling.Contract.Failure.{HostResult}
use pingling.Contract.Slot.{
  SlotPhase, SlotPolicy, first_success, policy_eq, SlotOutcome, unchanged, continue, halt, error,
  unhandled,
}
use pingling.Contract.Registry.{PluginBinding, bindings_for}
use pingling.Runtime.Plugin.{
  Plugin, Serde, Env, Call, PluginPhaseResult, not_handled, observed_only, handled, halted,
  run_plugin_phase, context, call_plugin, observe, handle_reply, handle_outcome, apply_outcome,
  is_best_effort,
}
use pingling.Runtime.Loaded.{
  LoadedPluginRegistry, Invocation, PhaseResult, run_bindings, run_slot_phase_observed,
  after_plugin, binding_call, Rest,
}
use pingling.Runtime.Loaded.Visits.{logged, logged_all, watched, Visits, run_bindings-Visits}

module _ {V W : Type 0} where
  -- The environment without the log.
  abbrev pub forget : Env V (W × List String) → Env V W
  forget env = record { world = env.world.0; observed = env.observed }

  abbrev pub forget_run : {X : Type 0} → X × Env V (W × List String) → X × Env V W
  forget_run (x, env) = (x, forget env)

module _ {V P W : Type 0} (s : Serde V P) (c : Call) (payload : P) where
  apply_outcome-forget :
      (outcome : SlotOutcome P) (original : V) (env : Env V (W × List String))
      → forget_run (apply_outcome s c payload outcome original env)
        ≡ apply_outcome s c payload outcome original (forget env)
  unfolding apply_outcome observe
  apply_outcome-forget unhandled v env = refl
  apply_outcome-forget unchanged v env = refl
  apply_outcome-forget (continue p) v env = refl
  apply_outcome-forget (halt p) v env = refl
  apply_outcome-forget (error m) v env = refl

  handle_reply-forget :
      (reply : Option (HostResult V)) (original : V) (env : Env V (W × List String))
      → forget_run (handle_reply s c payload reply original env)
        ≡ handle_reply s c payload reply original (forget env)
  unfolding handle_reply handle_outcome observe
  handle_reply-forget none v env = refl
  handle_reply-forget (some (err e)) v env = refl
  handle_reply-forget (some (ok raw)) v env = elim (Result-cases (s.outcome_from_value raw)) [
    | inl (o, e) ↦ rw (e, handle_outcome) (apply_outcome-forget o v env)
    | inr (m, e) ↦ elim (Bool-cases (is_best_effort c)) [
      | inl best ↦ rw (e, handle_outcome, best) refl
      | inr strict ↦ rw (e, handle_outcome, strict) refl
    ]
  ]

  run_plugin_phase-forget :
      (id : String) (plugin : Plugin V W) (env : Env V (W × List String))
      → forget_run (run_plugin_phase s c (logged id plugin) payload env)
        ≡ run_plugin_phase s c plugin payload (forget env)
  unfolding run_plugin_phase call_plugin observe
  run_plugin_phase-forget id plugin env =
      elim (Result-cases (s.context_to_value (context s c payload))) [
        | inl (v, e) ↦ rw (e, run_plugin_phase) (handle_reply-forget _ _ _)
        | inr (m, e) ↦ rw (e, run_plugin_phase) refl
      ]

module _ {V P W : Type 0} where
  after_plugin-forget :
      (policy : SlotPolicy) (rest : Rest V P (W × List String) (PhaseResult P))
      (plain : Rest V P W (PhaseResult P)) (any_handled : Bool)
      (result : HostResult (PluginPhaseResult P)) (env : Env V (W × List String))
      → ((p : P) (h : Bool) → forget_run (rest p h env) ≡ plain p h (forget env))
      → forget_run (after_plugin policy rest any_handled result env)
        ≡ after_plugin policy plain any_handled result (forget env)
  unfolding after_plugin
  after_plugin-forget policy rest plain h (err f) env same = refl
  after_plugin-forget policy rest plain h (ok (not_handled p)) env same = same p h
  after_plugin-forget policy rest plain h (ok (observed_only p)) env same = same p true
  after_plugin-forget policy rest plain h (ok (halted p)) env same = refl
  after_plugin-forget policy rest plain h (ok (handled p)) env same =
      elim (Bool-cases (policy_eq policy first_success)) [
        | inl first ↦ rw first refl
        | inr other ↦ rw other (same p true)
      ]

module _ {V W : Type 0} where
  logged_all-none :
      (plugins : BTreeMap (Plugin V W)) (id : String)
      → get plugins id ≡ none
      → get (logged_all plugins) id ≡ none
  unfolding get
  logged_all-none [] id h = refl
  logged_all-none ((k, plugin) ∷ plugins) id h = ground (arith, h, logged_all-none plugins id)

  logged_all-some :
      (plugins : BTreeMap (Plugin V W)) (id : String) (plugin : Plugin V W)
      → get plugins id ≡ some plugin
      → get (logged_all plugins) id ≡ some (logged id plugin)
  unfolding get
  logged_all-some [] id plugin h = absurd (ground (arith, h))
  logged_all-some ((k, q) ∷ plugins) id plugin h = elim (Bool-cases (str_eq k id)) [
    | inl e ↦
        let same : q ≡ plugin = ground (arith, e, h) in
        rw (e, get) (rw (same, (eq_iff k id).0 e) refl)
    | inr e ↦
        let rest : get plugins id ≡ some plugin = ground (arith, e, h) in
        rw (e, get) (logged_all-some plugins id plugin rest)
  ]

module _ {V P W : Type 0} (s : Serde V P) (r : LoadedPluginRegistry V W) (i : Invocation)
    (phase : SlotPhase) where
  run_bindings-forget :
      (bs : List PluginBinding) (payload : P) (any_handled : Bool) (env : Env V (W × List String))
      → forget_run (run_bindings s (watched r) i phase bs payload any_handled env)
        ≡ run_bindings s r i phase bs payload any_handled (forget env)
  unfolding run_bindings
  run_bindings-forget [] payload h env = refl
  run_bindings-forget (b ∷ bs) payload h env = elim (Option-cases (get r.plugins b.plugin_id)) [
    | inl e ↦ rw (e, logged_all-none r.plugins b.plugin_id e, run_bindings) refl
    | inr (plugin, e) ↦
        let c = binding_call i phase b in
        let found = logged_all-some r.plugins b.plugin_id plugin e in
        let (result, env') = run_plugin_phase s c (logged b.plugin_id plugin) payload env in
        rw (e, found, run_bindings, ← run_plugin_phase-forget s c payload b.plugin_id plugin env)
          (after_plugin-forget b.policy (run_bindings s (watched r) i phase bs)
            (run_bindings s r i phase bs) h result env'
            (λ p any. run_bindings-forget bs p any env'))
  ]

  -- Let every plugin write its id into a log when its `handle_ipc` is called: apart from the log, a
  -- phase runs as it does without one. It adds to the log the plugin ids of the first bindings of
  -- `bindings_for`, in their order and one for each binding: no binding calls its plugin twice, and
  -- none is passed over. When the phase ends unhandled, or handled with no `first_success` binding
  -- among them, it adds those of all bindings.
  pub run_slot_phase-Visits :
      (payload : P) (env : Env V (W × List String))
      → Visits
          (bindings_for r.registry i.slot phase)
          env.world.1
          (run_slot_phase_observed s (watched r) i phase payload env).1.world.1
          (run_slot_phase_observed s (watched r) i phase payload env).0
        × (forget_run (run_slot_phase_observed s (watched r) i phase payload env)
            ≡ run_slot_phase_observed s r i phase payload (forget env))
  unfolding run_slot_phase_observed
  run_slot_phase-Visits payload env = (
    run_bindings-Visits s r i phase (bindings_for r.registry i.slot phase) payload false env,
    run_bindings-forget (bindings_for r.registry i.slot phase) payload false env,
  )

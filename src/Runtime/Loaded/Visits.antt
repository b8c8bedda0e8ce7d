-- ===== src/Runtime/Loaded/Visits.antt =====
-- Which plugins a phase calls, and in which order.
use mathlib.Core.List.{append_assoc, append-nil}
use pingling.Prelude.{
  String, ◌≡◌, ◌≢◌, refl, sym, ◌∙◌, ap, ◌⊎◌, inl, inr, List, [], ◌∷◌, ◌++◌, map, Bool, true, ok,
  err, some, none, Option, str_eq, eq_iff, arith, All, Result-cases, Option-cases, Bool-cases,
}
use pingling.Prelude.BTreeMap.{BTreeMap, get}
use pingling.Contract.Failure.{HostResult, HostFailure}
use pingling.Contract.Slot.{
  SlotPhase, first_success, policy_eq, SlotOutcome, unchanged, continue, halt, error, unhandled,
}
use pingling.Contract.Registry.{PluginBinding}
use pingling.Runtime.Plugin.{
  Plugin, Serde, Env, Call, PluginPhaseResult, not_handled, observed_only, handled, halted,
  run_plugin_phase, context, call_plugin, observe, handle_reply, handle_outcome, apply_outcome,
  is_best_effort,
}
use pingling.Runtime.Loaded.{
  LoadedPluginRegistry, Invocation, PhaseResult, phase_unhandled, phase_handled, phase_halted,
  run_bindings, after_plugin, binding_call, Rest,
}

-- A plugin that writes its id into a log whenever it is called.
module _ {V W : Type 0} where
  abbrev pub logged : String → Plugin V W → Plugin V (W × List String)
  logged id plugin = record {
    name = plugin.name;
    handle_ipc = λ method params world.
        let (reply, after) = plugin.handle_ipc method params world.0 in
        (reply, (after, world.1 ++ id ∷ []));
  }

  abbrev pub logged_all : BTreeMap (Plugin V W) → BTreeMap (Plugin V (W × List String))
  logged_all [] = []
  logged_all ((id, plugin) ∷ plugins) = (id, logged id plugin) ∷ logged_all plugins

  -- The registry with all its plugins logged.
  abbrev pub watched : LoadedPluginRegistry V W → LoadedPluginRegistry V (W × List String)
  watched r = record { registry = r.registry; plugins = logged_all r.plugins }

  get-logged_all :
      (plugins : BTreeMap (Plugin V W)) (id : String) (q : Plugin V (W × List String))
      → get (logged_all plugins) id ≡ some q
      → (plugin : Plugin V W) × (q ≡ logged id plugin)
  unfolding get
  get-logged_all [] id q h = absurd (ground (arith, h))
  get-logged_all ((k, plugin) ∷ plugins) id q h = elim (Bool-cases (str_eq k id)) [
    | inl e ↦
        let found : logged k plugin ≡ q = ground (arith, e, h) in
        (plugin, sym found ∙ ap (λ n. logged n plugin) ((eq_iff k id).0 e))
    | inr e ↦
        let rest : get (logged_all plugins) id ≡ some q = ground (arith, e, h) in
        get-logged_all plugins id q rest
  ]

module _ {V P W : Type 0} (s : Serde V P) (c : Call) (payload : P) where
  apply_outcome-world :
      (outcome : SlotOutcome P) (original : V) (env : Env V W)
      → (apply_outcome s c payload outcome original env).1.world ≡ env.world
  unfolding apply_outcome
  apply_outcome-world unhandled v env = refl
  apply_outcome-world unchanged v env = refl
  apply_outcome-world (continue p) v env = refl
  apply_outcome-world (halt p) v env = refl
  apply_outcome-world (error m) v env = refl

  -- What is done with a reply calls no plugin.
  handle_reply-world :
      (reply : Option (HostResult V)) (original : V) (env : Env V W)
      → (handle_reply s c payload reply original env).1.world ≡ env.world
  unfolding handle_reply handle_outcome
  handle_reply-world none v env = refl
  handle_reply-world (some (err e)) v env = refl
  handle_reply-world (some (ok raw)) v env = elim (Result-cases (s.outcome_from_value raw)) [
    | inl (o, e) ↦ rw (e, handle_outcome) (apply_outcome-world o v env)
    | inr (m, e) ↦ elim (Bool-cases (is_best_effort c)) [
      | inl best ↦ rw (e, handle_outcome, best) refl
      | inr strict ↦ rw (e, handle_outcome, strict) refl
    ]
  ]

module _ {V P W : Type 0} (s : Serde V P) (c : Call) (plugin : Plugin V W) (payload : P)
    (env : Env V (W × List String)) where
  -- A plugin whose context cannot be serialised is not called; any other is called once.
  abbrev CalledOnce : Type 0
  CalledOnce =
      ((f : HostFailure) × ((run_plugin_phase s c (logged c.plugin_id plugin) payload env).0
          ≡ err f)
        × ((run_plugin_phase s c (logged c.plugin_id plugin) payload env).1.world.1 ≡ env.world.1))
      ⊎ ((run_plugin_phase s c (logged c.plugin_id plugin) payload env).1.world.1
          ≡ env.world.1 ++ c.plugin_id ∷ [])

  called_once : CalledOnce
  unfolding run_plugin_phase call_plugin observe
  called_once = elim (Result-cases (s.context_to_value (context s c payload))) [
    | inl (v, e) ↦ inr (
        rw (e, run_plugin_phase)
          (ap (λ (world : W × List String). world.1) (handle_reply-world s c payload _ _ _)))
    | inr (m, e) ↦ inl (rw (e, run_plugin_phase) (_, refl, refl))
  ]

abbrev ids : List PluginBinding → List String
ids bs = map (λ b. b.plugin_id) bs

module _ {P : Type 0} where
  -- A result that the loop gives at its end: nobody handled the slot, or somebody did under
  -- policies that let the others go on.
  abbrev pub RanThrough : List PluginBinding → HostResult (PhaseResult P) → Type 0
  RanThrough bs (err f) = ⊥
  RanThrough bs (ok (phase_unhandled p)) = Unit
  RanThrough bs (ok (phase_handled p)) = All (λ b. b.policy ≢ first_success) bs
  RanThrough bs (ok (phase_halted p)) = ⊥

  -- The calls that the log has more are those of the first bindings, one for each and in order; of all
  -- bindings, if the loop ran through.
  pub record Visits (bs : List PluginBinding) (before after : List String)
      (result : HostResult (PhaseResult P)) : Type 0 where
    pub done : List String
    pub left : List String
    pub split : ids bs ≡ done ++ left
    pub order : after ≡ before ++ done
    pub finished : RanThrough bs result → left ≡ []

module _ {V P W : Type 0} (b : PluginBinding) (bs : List PluginBinding)
    (env env' : Env V (W × List String)) where
  abbrev VisitsRun :
      List PluginBinding
      → Env V (W × List String)
      → HostResult (PhaseResult P) × Env V (W × List String)
      → Type 0
  VisitsRun l e (result, e') = Visits l e.world.1 e'.world.1 result

  none_called :
      (f : HostFailure) → env'.world.1 ≡ env.world.1 → VisitsRun (b ∷ bs) env (err f, env')
  none_called f same = record {
    done = [];
    left = ids (b ∷ bs);
    split = refl;
    order = rw same (sym (append-nil _));
    finished = λ h. absurd h;
  }

  after_failure :
      (rest : Rest V P (W × List String) (PhaseResult P)) (any_handled : Bool)
      (result : HostResult (PluginPhaseResult P)) (f : HostFailure)
      → result ≡ err f
      → env'.world.1 ≡ env.world.1
      → VisitsRun (b ∷ bs) env (after_plugin b.policy rest any_handled result env')
  unfolding after_plugin
  after_failure rest h result f e same = rw (e, after_plugin) (none_called f same)

  module _ (entered : env'.world.1 ≡ env.world.1 ++ b.plugin_id ∷ []) where
    -- The loop ends after this plugin.
    stops :
        (result : HostResult (PhaseResult P))
        → (RanThrough (b ∷ bs) result → ⊥)
        → VisitsRun (b ∷ bs) env (result, env')
    stops result early = record {
      done = b.plugin_id ∷ [];
      left = ids bs;
      split = refl;
      order = entered;
      finished = λ h. absurd (early h);
    }

    tail_ran :
        (result : HostResult (PhaseResult P)) → RanThrough (b ∷ bs) result → RanThrough bs result
    tail_ran (err f) h = h
    tail_ran (ok (phase_unhandled p)) h = h
    tail_ran (ok (phase_handled p)) h = h.1
    tail_ran (ok (phase_halted p)) h = h

    goes_on :
        (run : HostResult (PhaseResult P) × Env V (W × List String))
        → VisitsRun bs env' run
        → VisitsRun (b ∷ bs) env run
    goes_on (result, env'') v = record {
      done = b.plugin_id ∷ v.done;
      left = v.left;
      split = ap (◌∷◌ b.plugin_id) v.split;
      order =
          v.order
          ∙ ap (λ l. l ++ v.done) entered
          ∙ append_assoc (env.world.1) (b.plugin_id ∷ []) v.done;
      finished = λ h. v.finished (tail_ran result h);
    }

    after_plugin-Visits :
        (rest : Rest V P (W × List String) (PhaseResult P)) (any_handled : Bool)
        (result : HostResult (PluginPhaseResult P))
        → ((p : P) (h : Bool) → VisitsRun bs env' (rest p h env'))
        → VisitsRun (b ∷ bs) env (after_plugin b.policy rest any_handled result env')
    unfolding after_plugin
    after_plugin-Visits rest h (err f) v = stops (err f) (λ x. x)
    after_plugin-Visits rest h (ok (not_handled p)) v = goes_on (rest p h env') (v p h)
    after_plugin-Visits rest h (ok (observed_only p)) v = goes_on (rest p true env') (v p true)
    after_plugin-Visits rest h (ok (handled p)) v =
        elim (Bool-cases (policy_eq b.policy first_success)) [
          | inl first ↦ rw first (stops (ok (phase_handled p)) (λ x. x.0 (ground arith)))
          | inr other ↦ rw other (goes_on (rest p true env') (v p true))
        ]
    after_plugin-Visits rest h (ok (halted p)) v = stops (ok (phase_halted p)) (λ x. x)

module _ {V P W : Type 0} (s : Serde V P) (r : LoadedPluginRegistry V W) (i : Invocation)
    (phase : SlotPhase) where
  pub run_bindings-Visits :
      (bs : List PluginBinding) (payload : P) (any_handled : Bool) (env : Env V (W × List String))
      → Visits bs env.world.1
          (run_bindings s (watched r) i phase bs payload any_handled env).1.world.1
          (run_bindings s (watched r) i phase bs payload any_handled env).0
  unfolding run_bindings
  run_bindings-Visits [] payload h env = record {
    done = [];
    left = [];
    split = refl;
    order = sym (append-nil _);
    finished = λ x. refl;
  }
  run_bindings-Visits (b ∷ bs) payload h env =
      elim (Option-cases (get (logged_all r.plugins) b.plugin_id)) [
        | inl e ↦ rw (e, run_bindings) (none_called b bs env env _ refl)
        | inr (q, e) ↦
            let (plugin, same) = get-logged_all r.plugins b.plugin_id q e in
            let found : get (logged_all r.plugins) b.plugin_id ≡ some (logged b.plugin_id plugin) =
              e ∙ ap (λ x. some x) same in
            let c = binding_call i phase b in
            let (result, env') = run_plugin_phase s c (logged b.plugin_id plugin) payload env in
            let rest = run_bindings s (watched r) i phase bs in
            rw (found, run_bindings)
              (elim (called_once s c plugin payload env) [
                | inl (f, fails, same) ↦ after_failure b bs env env' rest h result f fails same
                | inr called ↦
                    after_plugin-Visits b bs env env' called rest h result
                      (λ p any. run_bindings-Visits bs p any env')
              ])
      ]

-- ===== src/Examples/Runtime.antt =====
-- The runtime at the sample plugins.
use pingling.Prelude.{ℕ, String, ◌≡◌, ◌⊎◌, refl, List, [], ◌∷◌, ◌++◌, In, ok, none, some, inl}
use pingling.Prelude.BTreeMap.{get}
use pingling.Prelude.Int.{pos}
use pingling.Contract.Slot.{exec, SlotPolicy, first_success, best_effort, pipeline}
use pingling.Contract.Manifest.{PluginManifest}
use pingling.Contract.Registry.{method_bindings, PluginBinding, bindings_for, to_binding}
use pingling.Runtime.Plugin.{Plugin, Env, Call, run_plugin_phase, method_name, observation, enter}
use pingling.Runtime.Plugin.Policies.{Keeps, run_plugin_phase_best_effort}
use pingling.Runtime.Plugin.Observations.{Emits, IsMalformed, run_plugin_phase-Emits}
use pingling.Runtime.Loaded.{
  dispatch_method, LoadedPluginRegistry, register, empty_loaded, run_slot_chain_observed,
  run_slot_phase_observed,
}
use pingling.Runtime.Loaded.Single.{whole_slot, chain_of_one_plugin}
use pingling.Runtime.Loaded.Register.{register_all, bindings_for_loaded}
use pingling.Runtime.Loaded.Dispatch.{Answers, dispatch_method-Answers}
use pingling.Runtime.Loaded.Visits.{watched, Visits}
use pingling.Runtime.Loaded.Calls.{forget, forget_run, run_slot_phase-Visits}
use pingling.Runtime.Single.{run_single_plugin_slot_chain_observed}
use pingling.Examples.Samples.{
  text_json, try_register, bind_exec, saying, failing, serde, invocation, manifest, owner, helper,
  config_slot,
}

abbrev idle : Env String ℕ
idle = record { world = 0; observed = [] }

abbrev call : SlotPolicy → Call
call policy = record {
  plugin_id = "p";
  slot = config_slot;
  phase = exec;
  policy = policy;
  wire_version = 1;
  invocation_id = "inv";
}

run_plugin_phase_best_effort_example :
    Keeps serde
      (call best_effort)
      failing
      5
      idle
      (run_plugin_phase serde (call best_effort) failing 5 idle).0
run_plugin_phase_best_effort_example =
    run_plugin_phase_best_effort serde (call best_effort) failing 5 idle "context" refl refl

run_plugin_phase-Emits_example :
    ((IsMalformed serde
          (call pipeline)
          ((saying "junk").handle_ipc (method_name (call pipeline)) "context" 0).0
        → ⊥)
      × Emits
          (call pipeline)
          ([] ++ observation (call pipeline) enter "payload" none ∷ [])
          (run_plugin_phase serde (call pipeline) (saying "junk") 5 idle).1.observed)
    ⊎ (IsMalformed serde
          (call pipeline)
          ((saying "junk").handle_ipc (method_name (call pipeline)) "context" 0).0
        × ((run_plugin_phase serde (call pipeline) (saying "junk") 5 idle).1.observed
            ≡ [] ++ observation (call pipeline) enter "payload" none ∷ []))
run_plugin_phase-Emits_example =
    run_plugin_phase-Emits serde (call pipeline) (saying "junk") 5 idle "context" refl

abbrev lone_manifest : PluginManifest String
lone_manifest = manifest "solo" (pos 1) (whole_slot config_slot ∷ [])

abbrev lone : LoadedPluginRegistry String ℕ
lone = record {
  registry = record { plugins = ("solo", lone_manifest) ∷ [] };
  plugins = ("solo", saying "continue") ∷ [];
}

register-lone : register empty_loaded lone_manifest (saying "continue") ≡ ok lone
unfolding register empty_loaded try_register
register-lone = refl

chain_of_one_plugin_example :
    run_slot_chain_observed serde lone invocation 5 idle
    ≡ run_single_plugin_slot_chain_observed serde "solo" (saying "continue") invocation 5 idle
chain_of_one_plugin_example =
    chain_of_one_plugin serde invocation lone_manifest (saying "continue") lone 5 idle register-lone
      refl

abbrev loads : List (PluginManifest String × Plugin String ℕ)
loads = (owner, saying "unchanged") ∷ (helper, failing) ∷ []

abbrev loaded : LoadedPluginRegistry String ℕ
loaded = register_all empty_loaded loads

abbrev helper_binding : PluginBinding
helper_binding = to_binding helper exec (bind_exec config_slot first_success)

helper_bound : In helper_binding (bindings_for loaded.registry config_slot exec)
unfolding register_all register empty_loaded try_register
helper_bound = inl refl

bindings_for_loaded_example :
    (plugin : Plugin String ℕ) × (get loaded.plugins helper_binding.plugin_id ≡ some plugin)
bindings_for_loaded_example = bindings_for_loaded loads config_slot exec helper_binding helper_bound

abbrev idle_log : Env String (ℕ × List String)
idle_log = record { world = (0, []); observed = [] }

run_slot_phase-Visits_example :
    Visits
      (bindings_for loaded.registry config_slot exec)
      []
      (run_slot_phase_observed serde (watched loaded) invocation exec 5 idle_log).1.world.1
      (run_slot_phase_observed serde (watched loaded) invocation exec 5 idle_log).0
    × (forget_run (run_slot_phase_observed serde (watched loaded) invocation exec 5 idle_log)
        ≡ run_slot_phase_observed serde loaded invocation exec 5 (forget idle_log))
run_slot_phase-Visits_example = run_slot_phase-Visits serde loaded invocation exec 5 idle_log

dispatch_method-Answers_example :
    Answers loaded "identity.login" "params"
      (method_bindings loaded.registry "identity.login")
      0
      (dispatch_method loaded "identity.login" "params" 0).0
      (dispatch_method loaded "identity.login" "params" 0).1
dispatch_method-Answers_example = dispatch_method-Answers loads "identity.login" "params" 0

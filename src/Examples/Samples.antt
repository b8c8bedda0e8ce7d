-- ===== src/Examples/Samples.antt =====
-- Plugins, manifests and a tiny serialisation for the examples.
use pingling.Prelude.{
  ℕ, ◌+◌, String, List, [], ◌∷◌, none, some, Result, ok, err, str_eq, if◌then◌else◌,
}
use pingling.Prelude.Int.{ℤ, pos, negsuc}
use pingling.Contract.Failure.{HostResult, plugin_error}
use pingling.Contract.Slot.{
  Slot, exec, SlotPolicy, pipeline, first_success, single_owner, SlotBinding, contains_phase,
  SlotOutcome, continue, halt, unchanged,
}
use pingling.Contract.Package.{Json, new_package}
use pingling.Contract.Manifest.{
  PluginManifest, validate_manifest, normalized_package, check_slot, base_package, package_methods,
  add_methods, complete_package, merge_manifest_capabilities, merge_capabilities,
}
use pingling.Contract.Token.{validate_token, validate_method_pattern}
use pingling.Prelude.Text.{chars_all, strip_suffix}
use pingling.Prelude.Sort.{sort_by}
use pingling.Prelude.BTreeMap.{get, insert}
use pingling.Contract.Registry.{
  PluginRegistry, register, empty_registry, bindings_for, all_bindings, slot_bindings,
  validate_single_owner_conflicts, check_candidate, check_names, owner_conflict,
}
use pingling.Runtime.Plugin.{Plugin, Serde}
use pingling.Runtime.Loaded.{Invocation}

-- JSON as its text, as far as the examples need it.
instance abbrev pub text_json : Json String
text_json = record {
  null = "null";
  bool = λ b. "bool";
  string = λ s. s;
  object = λ fields. "object";
}

abbrev pub config_slot : Slot
config_slot = record { name = "config.process" }

abbrev pub auth_slot : Slot
auth_slot = record { name = "auth.session" }

abbrev pub bind_exec : Slot → SlotPolicy → SlotBinding
bind_exec slot policy = record { name = slot; phases = exec ∷ []; policy = policy }

abbrev pub manifest : String → ℤ → List SlotBinding → PluginManifest String
manifest id priority slots = record {
  id = id;
  priority = priority;
  methods = "identity.*" ∷ [];
  slots = slots;
  needs = [];
  allowed_hosts = [];
  package_descriptor = none;
}

abbrev pub owner : PluginManifest String
owner =
    manifest "b.owner" (pos 10)
      (bind_exec auth_slot single_owner ∷ bind_exec config_slot pipeline ∷ [])

abbrev pub rival : PluginManifest String
rival = manifest "a.rival" (pos 0) (bind_exec auth_slot pipeline ∷ [])

abbrev pub helper : PluginManifest String
helper = manifest "c.helper" (negsuc 4) (bind_exec config_slot first_success ∷ [])

-- Answers with the text it holds, and counts its calls.
abbrev pub saying : String → Plugin String ℕ
saying answer = record {
  name = answer;
  handle_ipc = λ method params calls. (some (ok answer), calls + 1);
}

abbrev pub failing : Plugin String ℕ
failing = record {
  name = "failing";
  handle_ipc = λ method params calls. (some (err (plugin_error "boom")), calls + 1);
}

abbrev parse_outcome : String → Result (SlotOutcome ℕ) String
parse_outcome v =
    if str_eq v "continue"
    then ok (continue 7)
    else if str_eq v "halt"
    then ok (halt 9)
    else if str_eq v "unchanged"
    then ok unchanged
    else err "unknown kind"

abbrev pub serde : Serde String ℕ
serde = record {
  context_to_value = λ ctx. ok "context";
  payload_field = λ v. "payload";
  outcome_from_value = parse_outcome;
  payload_to_value = λ p. ok "number";
  null = "null";
}

abbrev pub invocation : Invocation
invocation = record { slot = config_slot; wire_version = 1; invocation_id = "inv" }

-- `register`, opened with all that it calls, for the runs.
unfoldable pub try_register :
    PluginRegistry String → PluginManifest String → HostResult (PluginRegistry String)
unfolding register empty_registry validate_manifest validate_token validate_method_pattern
    check_slot strip_suffix chars_all get insert validate_single_owner_conflicts check_candidate
    check_names bindings_for all_bindings slot_bindings sort_by contains_phase normalized_package
    base_package new_package package_methods add_methods complete_package
    merge_manifest_capabilities merge_capabilities owner_conflict
try_register r m = register r m

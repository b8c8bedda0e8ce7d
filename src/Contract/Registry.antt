-- ===== src/Contract/Registry.antt =====
-- `PluginRegistry` of host-contract/src/lib.rs.
pub mod Bindings
pub mod Register
pub mod Owners
pub mod Names
pub mod Invariant
pub mod Hosts
pub mod Preferred
pub mod Patterns
pub mod Methods
use pingling.Prelude.{
  String, List, [], ◌∷◌, Option, none, some, ok, ◌>>◌, ◌>>=◌, reject_if, for_each, flat_map,
  Ordering, ◌||◌, ◌&&◌, any, keep, str_eq, if◌then◌else◌, Result,
}
use pingling.Prelude.Int.{ℤ, int_cmp}
use pingling.Prelude.Text.{format}
use pingling.Prelude.Order.{str_cmp, then_with}
use pingling.Prelude.Sort.{sort_by}
use pingling.Prelude.BTreeMap.{BTreeMap, get, insert, contains_key, values}
use pingling.Contract.Failure.{HostResult, HostFailure, invalid_input}
use pingling.Contract.Token.{method_matches, method_pattern_specificity, specificity_cmp}
use pingling.Contract.Slot.{
  Slot, SlotPhase, SlotPolicy, single_owner, SlotBinding, slot_eq, contains_phase, policy_eq,
  phase_str,
}
use pingling.Contract.Package.{Json, IpcPackageDescriptor}
use pingling.Contract.Manifest.{
  PluginManifest, validate_manifest, normalized_package, dispatch_methods,
}
use pingling.Contract.Merged.{
  MergedContractRegistry, empty_merged, register_package, already_owned, package_methods,
  package_events,
}

pub record PluginBinding : Type 0 where
  pub plugin_id : String
  pub priority : ℤ
  pub slot : Slot
  pub phase : SlotPhase
  pub policy : SlotPolicy

pub record MethodBinding : Type 0 where
  pub plugin_id : String
  pub priority : ℤ
  pub pattern_text : String

pub record PluginRegistry (V : Type 0) : Type 0 where
  pub plugins : BTreeMap (PluginManifest V)

abbrev pub binding_cmp : PluginBinding → PluginBinding → Ordering
binding_cmp a b = then_with (int_cmp a.priority b.priority) (str_cmp a.plugin_id b.plugin_id)

abbrev pub method_binding_cmp : MethodBinding → MethodBinding → Ordering
method_binding_cmp a b =
    then_with (then_with (int_cmp a.priority b.priority) (str_cmp a.plugin_id b.plugin_id))
      (str_cmp a.pattern_text b.pattern_text)

-- the comparison of `max_by`
abbrev pub pattern_cmp : String → String → Ordering
pattern_cmp a b =
    then_with (specificity_cmp (method_pattern_specificity a) (method_pattern_specificity b))
      (str_cmp a b)

-- `Iterator::max_by`: of equal items the last
unfoldable pub max_from {ℓ} : {A : Type ℓ} → (A → A → Ordering) → A → List A → A
max_from cmp best [] = best
max_from cmp best (x ∷ xs) = max_from cmp (elim (cmp best x) [ Ordering.gt ↦ best | _ ↦ x ]) xs

unfoldable pub max_by {ℓ} : {A : Type ℓ} → (A → A → Ordering) → List A → Option A
max_by cmp [] = none
max_by cmp (x ∷ xs) = some (max_from cmp x xs)

unfoldable pub owner_conflict : SlotBinding → SlotPhase → PluginBinding → HostFailure
owner_conflict candidate phase existing = invalid_input (
    format (
      "slot "
      ∷ candidate.name.name
      ∷ " phase "
      ∷ phase_str phase
      ∷ " already has owner "
      ∷ existing.plugin_id
      ∷ []))

unfoldable pub check_unclaimed : String → Option String → String → HostResult (Unit {0})
check_unclaimed item none name = ok tt
check_unclaimed item (some owner) name = Result.err (already_owned item name owner)

module _ {V : Type 0} where
  unfoldable pub empty_registry : PluginRegistry V
  empty_registry = record { plugins = [] }

  unfoldable pub get_manifest : PluginRegistry V → String → Option (PluginManifest V)
  get_manifest r id = get r.plugins id

  abbrev pub manifests : PluginRegistry V → List (PluginManifest V)
  manifests r = values r.plugins

  abbrev pub to_binding : PluginManifest V → SlotPhase → SlotBinding → PluginBinding
  to_binding m phase b = record {
    plugin_id = m.id;
    priority = m.priority;
    slot = b.name;
    phase = phase;
    policy = b.policy;
  }

  -- the closure under `filter_map`
  unfoldable pub slot_bindings :
      PluginManifest V → Slot → SlotPhase → List SlotBinding → List PluginBinding
  slot_bindings m slot phase [] = []
  slot_bindings m slot phase (b ∷ bs) =
      let rest = slot_bindings m slot phase bs in
      if slot_eq b.name slot && contains_phase b phase then to_binding m phase b ∷ rest else rest

  unfoldable pub all_bindings : List (PluginManifest V) → Slot → SlotPhase → List PluginBinding
  all_bindings ms slot phase = flat_map (λ m. slot_bindings m slot phase m.slots) ms

  unfoldable pub bindings_for : PluginRegistry V → Slot → SlotPhase → List PluginBinding
  bindings_for r slot phase = sort_by binding_cmp (all_bindings (manifests r) slot phase)

  -- The two inner loops: the bindings that one slot of the new manifest meets.
  unfoldable pub check_candidate : PluginRegistry V → SlotBinding → HostResult (Unit {0})
  check_candidate r candidate = for_each candidate.phases λ phase.
      for_each (bindings_for r candidate.name phase) λ existing.
        reject_if
          (policy_eq candidate.policy single_owner || policy_eq existing.policy single_owner)
          (owner_conflict candidate phase existing)

  module _ ⦃j : Json V⦄ where
    -- `filter_map(..).next()`: the first plugin whose package has the name
    unfoldable pub first_owner :
        (IpcPackageDescriptor V → List String) → List (PluginManifest V) → String → Option String
    first_owner names [] name = none
    first_owner names (m ∷ ms) name =
        let rest = first_owner names ms name in
        elim (normalized_package m) [
          | none ↦ rest
          | some p ↦ if any (λ n. str_eq n name) (names p) then some m.id else rest
        ]

    unfoldable pub check_names : PluginRegistry V → PluginManifest V → HostResult (Unit {0})
    check_names r m = elim (normalized_package m) [
      | none ↦ ok tt
      | some p ↦
          for_each (package_methods p)
            (λ n. check_unclaimed "method" (first_owner package_methods (manifests r) n) n)
          >> for_each (package_events p)
              (λ n. check_unclaimed "event" (first_owner package_events (manifests r) n) n)
    ]

    unfoldable pub validate_single_owner_conflicts :
        PluginRegistry V → PluginManifest V → HostResult (Unit {0})
    validate_single_owner_conflicts r m = for_each m.slots (check_candidate r) >> check_names r m

    unfoldable pub register : PluginRegistry V → PluginManifest V → HostResult (PluginRegistry V)
    register r m =
        validate_manifest m
        >> reject_if (contains_key r.plugins m.id)
            (invalid_input (format ("plugin " ∷ m.id ∷ " is already registered" ∷ [])))
        >> validate_single_owner_conflicts r m
        >> ok (record { plugins = insert m.id m r.plugins })

    -- the best of a manifest's patterns that match
    unfoldable pub best_pattern : PluginManifest V → String → Option String
    best_pattern m method =
        max_by pattern_cmp (keep (λ p. method_matches p method) (dispatch_methods m))

    unfoldable pub matching_methods : List (PluginManifest V) → String → List MethodBinding
    matching_methods [] method = []
    matching_methods (m ∷ ms) method =
        let rest = matching_methods ms method in
        elim (best_pattern m method) [
          | none ↦ rest
          | some p ↦ record { plugin_id = m.id; priority = m.priority; pattern_text = p } ∷ rest
        ]

    unfoldable pub method_bindings : PluginRegistry V → String → List MethodBinding
    method_bindings r method = sort_by method_binding_cmp (matching_methods (manifests r) method)

    -- the loop of `merged_contract`
    unfoldable pub merge_all :
        MergedContractRegistry V → List (PluginManifest V) → HostResult (MergedContractRegistry V)
    merge_all merged [] = ok merged
    merge_all merged (m ∷ ms) = elim (normalized_package m) [
      | none ↦ merge_all merged ms
      | some p ↦ register_package merged p >>= λ merged'. merge_all merged' ms
    ]

    unfoldable pub merged_contract : PluginRegistry V → HostResult (MergedContractRegistry V)
    merged_contract r = merge_all empty_merged (manifests r)

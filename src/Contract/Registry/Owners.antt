-- ===== src/Contract/Registry/Owners.antt =====
-- The invariant of the registry: who may bind a slot, and who owns a name.
use pingling.Prelude.{
  ◌≡◌, sym, ◌∙◌, ap, subst, ◌⊎◌, inl, inr, ◌≢◌, ◌||◌, In, arith, ok, reject_if, for_each,
  for_each-In,
}
use pingling.Prelude.BTreeMap.{insert, values-insert_cases}
use pingling.Contract.Failure.{HostFailure}
use pingling.Contract.Slot.{Slot, SlotPhase, SlotPolicy, single_owner, SlotBinding, policy_eq}
use pingling.Contract.Manifest.{PluginManifest}
use pingling.Contract.Registry.{
  PluginRegistry, PluginBinding, check_candidate, bindings_for, to_binding, owner_conflict,
}
use pingling.Contract.Registry.Bindings.{Binds, In-bindings_for}

not_single :
    (p q : SlotPolicy) (e : HostFailure)
    → reject_if (policy_eq p single_owner || policy_eq q single_owner) e ≡ ok tt
    → (p ≢ single_owner) × (q ≢ single_owner)
not_single p q e h = (λ x. ground arith, λ x. ground arith)

module _ {V : Type 0} where
  -- A candidate that passed the check shares a slot and phase only with bindings that are shared.
  candidate_shares :
      (r : PluginRegistry V) (sb : SlotBinding) (slot : Slot) (phase : SlotPhase)
      (b : PluginBinding)
      → check_candidate r sb ≡ ok tt
      → Binds slot phase sb
      → In b (bindings_for r slot phase)
      → (sb.policy ≢ single_owner) × (b.policy ≢ single_owner)
  unfolding check_candidate
  candidate_shares r sb slot phase b h binds inside =
      not_single sb.policy b.policy (owner_conflict sb phase b) (
        for_each-In _ b (bindings_for r sb.name phase)
          (for_each-In _ phase sb.phases h binds.in_phase)
          (subst (λ s. In b (bindings_for r s phase)) (sym binds.at_slot) inside))

  -- A single owner of a slot phase is alone there: any other binding is of the same plugin.
  abbrev pub IsExclusive : PluginRegistry V → Type 0
  IsExclusive r =
      (slot : Slot) (phase : SlotPhase) (b b' : PluginBinding)
      → In b (bindings_for r slot phase)
      → In b' (bindings_for r slot phase)
      → b.policy ≡ single_owner
      → b.plugin_id ≡ b'.plugin_id

  module _ (r : PluginRegistry V) (m : PluginManifest V) where
    abbrev pub extended : PluginRegistry V
    extended = record { plugins = insert m.id m r.plugins }

    -- A binding after the insertion is the new plugin's, or stood there before.
    split_binding :
        (slot : Slot) (phase : SlotPhase) (b : PluginBinding)
        → In b (bindings_for extended slot phase)
        → ((sb : SlotBinding) × In sb m.slots × Binds slot phase sb × (b ≡ to_binding m phase sb))
          ⊎ In b (bindings_for r slot phase)
    split_binding slot phase b h =
        let o = (In-bindings_for extended slot phase b).0 h in
        elim (values-insert_cases o.manifest m.id m r.plugins o.registered) [
          | inl e ↦ inl (
            o.entry,
            subst (λ (x : PluginManifest V). In o.entry x.slots) e o.declared,
            o.binds,
            o.made ∙ ap (λ (x : PluginManifest V). to_binding x phase o.entry) e,
          )
          | inr old ↦ inr (
              (In-bindings_for r slot phase b).1 (record {
                manifest = o.manifest;
                entry = o.entry;
                registered = old;
                declared = o.declared;
                binds = o.binds;
                made = o.made;
              }))
        ]

    pub insert-IsExclusive :
        for_each m.slots (check_candidate r) ≡ ok tt → IsExclusive r → IsExclusive extended
    insert-IsExclusive checked v slot phase b b' h h' single = elim (split_binding slot phase b h) [
      | inl (sb, k, binds, e) ↦ elim (split_binding slot phase b' h') [
        | inl (sb', k', binds', e') ↦ cc
        | inr old ↦ absurd (
            (candidate_shares r sb slot phase b' (for_each-In _ sb m.slots checked k) binds old).0
              (cc))
      ]
      | inr old ↦ elim (split_binding slot phase b' h') [
        | inl (sb', k', binds', e') ↦ absurd (
            (candidate_shares r sb' slot phase b (for_each-In _ sb' m.slots checked k') binds'
                old).1
              single)
        | inr old' ↦ v slot phase b b' old old' single
      ]
    ]

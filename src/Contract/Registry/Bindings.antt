-- ===== src/Contract/Registry/Bindings.antt =====
-- Which bindings `bindings_for` lists, and in which order.
use pingling.Prelude.{
  ◌≡◌, refl, inl, inr, ◌↔◌, List, [], ◌∷◌, Bool, true, ◌&&◌, In, In-append_left, In-append_right,
  In-append_cases, arith, eq_iff, Bool-cases, any, All, Ordering,
}
use pingling.Prelude.Order.{
  IsOrder, IsOrder-by, IsOrder-then_with, str-IsOrder, str_cmp, then_with, NotGt,
}
use pingling.Prelude.Int.{ℤ, int_cmp, int-IsOrder}
use pingling.Prelude.Sort.{IsSorted, sort_by-IsSorted, In-sort_by}
use pingling.Contract.Slot.{Slot, SlotPhase, SlotBinding, phase_eq, slot_eq, contains_phase}
use pingling.Contract.Manifest.{PluginManifest}
use pingling.Contract.Registry.{
  PluginBinding, PluginRegistry, manifests, to_binding, slot_bindings, all_bindings, bindings_for,
  binding_cmp,
}

phase_eq→≡ : (p q : SlotPhase) → phase_eq p q ≡ true → p ≡ q
phase_eq→≡ p q h = ground arith

any_phase-In : (ps : List SlotPhase) (q : SlotPhase) → any (λ p. phase_eq p q) ps ≡ true → In q ps
any_phase-In [] q h = cc
any_phase-In (p ∷ ps) q h = ground (arith, any_phase-In ps q, phase_eq→≡ p q)

In-any_phase : (ps : List SlotPhase) (q : SlotPhase) → In q ps → any (λ p. phase_eq p q) ps ≡ true
In-any_phase [] q m = absurd m
In-any_phase (p ∷ ps) q m = ground (arith, In-any_phase ps q)

pub binding_cmp-IsOrder : IsOrder binding_cmp
binding_cmp-IsOrder =
    IsOrder-then_with (IsOrder-by (λ b. b.priority) int-IsOrder)
      (IsOrder-by (λ b. b.plugin_id) str-IsOrder)

-- One binding may stand before another.
pub data GoesBefore (a b : PluginBinding) : Type 0 where
  lower : int_cmp a.priority b.priority ≡ Ordering.lt → GoesBefore a b
  equal : a.priority ≡ b.priority → NotGt (str_cmp a.plugin_id b.plugin_id) → GoesBefore a b

-- Each binding may stand before each one that comes later.
abbrev pub Ordered : List PluginBinding → Type 0
Ordered [] = Unit
Ordered (b ∷ bs) = All (GoesBefore b) bs × Ordered bs

int_cmp-eq : (x y : ℤ) → int_cmp x y ≡ Ordering.eq → x ≡ y
int_cmp-eq x y h = ground arith

binding_cmp-GoesBefore : (a b : PluginBinding) → NotGt (binding_cmp a b) → GoesBefore a b
binding_cmp-GoesBefore a b h = go (int_cmp a.priority b.priority) refl h
  where
    go :
        (o : Ordering)
        → int_cmp a.priority b.priority ≡ o
        → NotGt (then_with o (str_cmp a.plugin_id b.plugin_id))
        → GoesBefore a b
    go Ordering.lt e k = lower e
    go Ordering.eq e k = equal (int_cmp-eq a.priority b.priority e) k
    go Ordering.gt e k = absurd k

All-GoesBefore :
    (b : PluginBinding) (bs : List PluginBinding)
    → All (λ c. NotGt (binding_cmp b c)) bs
    → All (GoesBefore b) bs
All-GoesBefore b [] h = tt
All-GoesBefore b (c ∷ bs) h = (binding_cmp-GoesBefore b c h.0, All-GoesBefore b bs h.1)

IsSorted-Ordered : (bs : List PluginBinding) → IsSorted binding_cmp bs → Ordered bs
IsSorted-Ordered [] h = tt
IsSorted-Ordered (b ∷ bs) h = (All-GoesBefore b bs h.0, IsSorted-Ordered bs h.1)

-- The slot entry `sb` binds the slot in the phase.
pub record Binds (slot : Slot) (phase : SlotPhase) (sb : SlotBinding) : Type 0 where
  pub at_slot : sb.name ≡ slot
  pub in_phase : In phase sb.phases

binds_test : Slot → SlotPhase → SlotBinding → Bool
binds_test slot phase sb = slot_eq sb.name slot && contains_phase sb phase

binds_test-Binds :
    (slot : Slot) (phase : SlotPhase) (sb : SlotBinding)
    → binds_test slot phase sb ≡ true
    → Binds slot phase sb
unfolding binds_test contains_phase
binds_test-Binds slot phase sb h =
    ground (arith, eq_iff sb.name.name slot.name, any_phase-In sb.phases phase)

Binds-binds_test :
    (slot : Slot) (phase : SlotPhase) (sb : SlotBinding)
    → Binds slot phase sb
    → binds_test slot phase sb ≡ true
unfolding binds_test contains_phase
Binds-binds_test slot phase sb h =
    ground (arith, eq_iff sb.name.name slot.name, In-any_phase sb.phases phase)

module _ {V : Type 0} where
  slot_bindings_sound :
      (m : PluginManifest V) (slot : Slot) (phase : SlotPhase) (b : PluginBinding)
      (sbs : List SlotBinding)
      → In b (slot_bindings m slot phase sbs)
      → (sb : SlotBinding) × In sb sbs × Binds slot phase sb × (b ≡ to_binding m phase sb)
  unfolding slot_bindings binds_test
  slot_bindings_sound m slot phase b [] h = absurd h
  slot_bindings_sound m slot phase b (sb ∷ sbs) h = elim (Bool-cases (binds_test slot phase sb)) [
    | inl e ↦ elim (rw e at h) [
      | inl here ↦ (sb, inl refl, binds_test-Binds slot phase sb e, here)
      | inr there ↦
          let (x, m', rest, eq) = slot_bindings_sound m slot phase b sbs there in
          (x, inr m', rest, eq)
    ]
    | inr e ↦
        let (x, m', rest, eq) = slot_bindings_sound m slot phase b sbs (rw e at h) in
        (x, inr m', rest, eq)
  ]

  slot_bindings_complete :
      (m : PluginManifest V) (slot : Slot) (phase : SlotPhase) (sb : SlotBinding)
      (sbs : List SlotBinding)
      → In sb sbs
      → Binds slot phase sb
      → In (to_binding m phase sb) (slot_bindings m slot phase sbs)
  unfolding slot_bindings binds_test
  slot_bindings_complete m slot phase sb [] h b = absurd h
  slot_bindings_complete m slot phase sb (x ∷ sbs) h b =
      ground (arith, slot_bindings_complete m slot phase sb sbs, Binds-binds_test slot phase sb b)

  all_bindings_sound :
      (ms : List (PluginManifest V)) (slot : Slot) (phase : SlotPhase) (b : PluginBinding)
      → In b (all_bindings ms slot phase)
      → (m : PluginManifest V) × In m ms × In b (slot_bindings m slot phase m.slots)
  unfolding all_bindings
  all_bindings_sound [] slot phase b h = absurd h
  all_bindings_sound (m ∷ ms) slot phase b h =
      elim (In-append_cases b (slot_bindings m slot phase m.slots) _ h) [
        | inl here ↦ (m, inl refl, here)
        | inr there ↦
            let (x, k, rest) = all_bindings_sound ms slot phase b there in (x, inr k, rest)
      ]

  all_bindings_complete :
      (ms : List (PluginManifest V)) (slot : Slot) (phase : SlotPhase) (b : PluginBinding)
      (m : PluginManifest V)
      → In m ms
      → In b (slot_bindings m slot phase m.slots)
      → In b (all_bindings ms slot phase)
  unfolding all_bindings
  all_bindings_complete [] slot phase b m k h = absurd k
  all_bindings_complete (x ∷ ms) slot phase b m (inl e) h =
      In-append_left b (slot_bindings x slot phase x.slots) _ (rw e at h)
  all_bindings_complete (x ∷ ms) slot phase b m (inr k) h =
      In-append_right b _ _ (all_bindings_complete ms slot phase b m k h)

  -- A registered plugin and the slot entry of its that the binding comes from.
  pub record Origin (r : PluginRegistry V) (slot : Slot) (phase : SlotPhase) (b : PluginBinding)
      : Type 0 where
    pub manifest : PluginManifest V
    pub entry : SlotBinding
    pub registered : In manifest (manifests r)
    pub declared : In entry manifest.slots
    pub binds : Binds slot phase entry
    pub made : b ≡ to_binding manifest phase entry

  -- `bindings_for` lists a binding exactly when some registered plugin declares a slot entry for
  -- that slot with that phase, and the binding carries the plugin's id and priority, the slot,
  -- the phase and the entry's policy.
  pub In-bindings_for :
      (r : PluginRegistry V) (slot : Slot) (phase : SlotPhase) (b : PluginBinding)
      → In b (bindings_for r slot phase) ↔ Origin r slot phase b
  unfolding bindings_for
  In-bindings_for r slot phase b = (
    λ h.
        let (m, k, inside) =
          all_bindings_sound (manifests r) slot phase b ((In-sort_by binding_cmp b _).0 h) in
        let (sb, declared, binds, made) = slot_bindings_sound m slot phase b m.slots inside in
        record {
          manifest = m;
          entry = sb;
          registered = k;
          declared = declared;
          binds = binds;
          made = made;
        },
    λ o. (In-sort_by binding_cmp b _).1 (
        all_bindings_complete (manifests r) slot phase b o.manifest o.registered (
          rw o.made (
            slot_bindings_complete o.manifest slot phase o.entry o.manifest.slots o.declared
              o.binds))),
  )

  -- `bindings_for` is in the order of the priorities, the lowest first, and of the plugin ids among
  -- equal priorities.
  pub bindings_for-Ordered :
      (r : PluginRegistry V) (slot : Slot) (phase : SlotPhase) → Ordered (bindings_for r slot phase)
  unfolding bindings_for
  bindings_for-Ordered r slot phase =
      IsSorted-Ordered _ (sort_by-IsSorted binding_cmp binding_cmp-IsOrder _)

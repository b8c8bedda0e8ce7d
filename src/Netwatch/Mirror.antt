-- ===== src/Netwatch/Mirror.antt =====
-- A client that keeps a mirror of the interfaces by the events alone.
use pingling.Prelude.{
  ℕ, String, List, [], ◌∷◌, ◌++◌, any, ◌==◌, ◌≡◌, refl, sym, ap, ◌∙◌, Bool, true, false, Option,
  none, some, arith, Option-cases, inl, inr, if◌then◌else◌,
}
use pingling.Netwatch.{
  IfaceSnapshot, UpdateEvent, added, removed, modified, Interface, InterfaceDiff, Update,
  iface_to_snapshot, added_events, removed_events, modified_event, modified_events,
  events_from_update,
}

abbrev pub Mirror : Type 0
Mirror = ℕ → Option IfaceSnapshot

abbrev put : ℕ → Option IfaceSnapshot → Mirror → Mirror
put index entry mirror i = if index == i then entry else mirror i

abbrev pub apply : UpdateEvent → Mirror → Mirror
apply (added s) mirror = put s.index (some s) mirror
apply (removed index name) mirror = put index none mirror
apply (modified s more less changed) mirror = put s.index (some s) mirror

abbrev pub apply_all : List UpdateEvent → Mirror → Mirror
apply_all [] mirror = mirror
apply_all (e ∷ es) mirror = apply_all es (apply e mirror)

abbrev pub snapshot_of : Option Interface → Option IfaceSnapshot
snapshot_of none = none
snapshot_of (some f) = some (iface_to_snapshot f)

abbrev pub snapshots : (ℕ → Option Interface) → Mirror
snapshots interfaces i = snapshot_of (interfaces i)

abbrev pub has : ℕ → List ℕ → Bool
has i = any (λ j. j == i)

abbrev pub indices : List (ℕ × InterfaceDiff) → List ℕ
indices [] = []
indices ((i, d) ∷ rest) = i ∷ indices rest

-- What netwatcher says of an update: an interface is kept under its index; what is listed as removed is
-- not there any more, and what is not there any more and not listed as removed was not there before; an
-- interface that is there and in no list is as it was.
pub record IsDiff (mirror : Mirror) (u : Update) : Type 0 where
  pub indexed : (i : ℕ) (f : Interface) → u.interfaces i ≡ some f → f.index ≡ i
  pub gone : (i : ℕ) → has i u.diff_removed ≡ true → u.interfaces i ≡ none
  pub lost : (i : ℕ) → u.interfaces i ≡ none → has i u.diff_removed ≡ false → mirror i ≡ none
  pub settled :
      (i : ℕ) (f : Interface)
      → u.interfaces i ≡ some f
      → has i u.diff_added ≡ false
      → has i (indices u.diff_modified) ≡ false
      → mirror i ≡ some (iface_to_snapshot f)

pub apply_all-append :
    (es fs : List UpdateEvent) (m : Mirror) → apply_all (es ++ fs) m ≡ apply_all fs (apply_all es m)
apply_all-append [] fs m = refl
apply_all-append (e ∷ es) fs m = apply_all-append es fs (apply e m)

-- Removals.
removed-apply_all :
    (text : ℕ → String) (idxs : List ℕ) (m : Mirror) (i : ℕ)
    → apply_all (removed_events text idxs) m i ≡ (if has i idxs then none else m i)
unfolding removed_events
removed-apply_all text [] m i = refl
removed-apply_all text (j ∷ idxs) m i = ground (arith, removed-apply_all text idxs (put j none m) i)

-- The events for interfaces that are there write them as they are.
module _ (interfaces : ℕ → Option Interface) where
  abbrev write : ℕ → Mirror → Mirror
  write j m = elim (interfaces j) [ none ↦ m | some f ↦ put f.index (some (iface_to_snapshot f)) m ]

  abbrev writes : List ℕ → Mirror → Mirror
  writes [] m = m
  writes (j ∷ js) m = writes js (write j m)

  write-none : (j : ℕ) (m : Mirror) → interfaces j ≡ none → write j m ≡ m
  write-none j m e = ground (arith, e)

  write-some :
      (j : ℕ) (m : Mirror) (f : Interface)
      → interfaces j ≡ some f
      → write j m ≡ put f.index (some (iface_to_snapshot f)) m
  write-some j m f e = ground (arith, e)

  added-apply_all :
      (js : List ℕ) (m : Mirror) → apply_all (added_events interfaces js) m ≡ writes js m
  unfolding added_events iface_to_snapshot
  added-apply_all [] m = refl
  added-apply_all (j ∷ js) m = elim (Option-cases (interfaces j)) [
    | inl e ↦ rw (e, added_events) (added-apply_all js m ∙ ap (writes js) (sym (write-none j m e)))
    | inr (f, e) ↦
        rw (e, added_events)
          (added-apply_all js (put f.index (some (iface_to_snapshot f)) m)
            ∙ ap (writes js) (sym (write-some j m f e)))
  ]

  modified-apply_all :
      (ds : List (ℕ × InterfaceDiff)) (m : Mirror)
      → apply_all (modified_events interfaces ds) m ≡ writes (indices ds) m
  unfolding modified_events modified_event iface_to_snapshot
  modified-apply_all [] m = refl
  modified-apply_all ((j, d) ∷ ds) m = elim (Option-cases (interfaces j)) [
    | inl e ↦
        rw (e, modified_events)
          (modified-apply_all ds m ∙ ap (writes (indices ds)) (sym (write-none j m e)))
    | inr (f, e) ↦
        rw (e, modified_events)
          (modified-apply_all ds (put f.index (some (iface_to_snapshot f)) m)
            ∙ ap (writes (indices ds)) (sym (write-some j m f e)))
  ]

  -- What is not there is not written.
  writes-none :
      ((i : ℕ) (f : Interface) → interfaces i ≡ some f → f.index ≡ i)
      → (js : List ℕ) (m : Mirror) (i : ℕ) → interfaces i ≡ none
      → writes js m i ≡ m i
  writes-none indexed [] m i h = refl
  writes-none indexed (j ∷ js) m i h = elim (Option-cases (interfaces j)) [
    | inl e ↦ ground (arith, e, writes-none indexed js (write j m) i h)
    | inr (f, e) ↦ ground (arith, e, indexed j f e, h, writes-none indexed js (write j m) i h)
  ]

  -- What is there is written if it is listed.
  writes-some :
      ((i : ℕ) (f : Interface) → interfaces i ≡ some f → f.index ≡ i)
      → (js : List ℕ) (m : Mirror) (i : ℕ) (f : Interface) → interfaces i ≡ some f
      → writes js m i ≡ (if has i js then some (iface_to_snapshot f) else m i)
  writes-some indexed [] m i f h = refl
  writes-some indexed (j ∷ js) m i f h = elim (Option-cases (interfaces j)) [
    | inl e ↦ ground (arith, e, h, writes-some indexed js (write j m) i f h)
    | inr (g, e) ↦ ground (arith, e, indexed j g e, h, writes-some indexed js (write j m) i f h)
  ]

-- The events of one update.
pub events_from_update-apply_all :
    (u32_text : ℕ → String) (u : Update) (mirror : Mirror) (i : ℕ)
    → IsDiff mirror u
    → apply_all (events_from_update u32_text u) mirror i ≡ snapshots u.interfaces i
unfolding events_from_update
events_from_update-apply_all u32_text u mirror i d =
    let first = added_events u.interfaces u.diff_added in
    let second = removed_events u32_text u.diff_removed in
    let third = modified_events u.interfaces u.diff_modified in
    let m1 = writes u.interfaces u.diff_added mirror in
    let m2 = apply_all second m1 in
    let whole : apply_all (first ++ (second ++ third)) mirror
        ≡ writes u.interfaces (indices u.diff_modified) m2 =
      apply_all-append first (second ++ third) mirror
      ∙ ap (apply_all (second ++ third)) (added-apply_all u.interfaces u.diff_added mirror)
      ∙ apply_all-append second third m1
      ∙ modified-apply_all u.interfaces u.diff_modified m2 in
    let without = removed-apply_all u32_text u.diff_removed m1 i in
    ap (λ m. m i) whole ∙ elim (Option-cases (u.interfaces i)) [
      | inl e ↦ ground (
        arith,
        e,
        without,
        writes-none u.interfaces d.indexed u.diff_added mirror i e,
        writes-none u.interfaces d.indexed (indices u.diff_modified) m2 i e,
        d.lost i e,
      )
      | inr (f, e) ↦ ground (
        arith,
        e,
        without,
        d.gone i,
        d.settled i f e,
        writes-some u.interfaces d.indexed u.diff_added mirror i f e,
        writes-some u.interfaces d.indexed (indices u.diff_modified) m2 i f e,
      )
    ]

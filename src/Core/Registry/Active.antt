-- ===== src/Core/Registry/Active.antt =====
-- What the operations of a registry keep true of its active core.
use pingling.Prelude.{
  String, ◌≡◌, refl, inl, inr, List, [], ◌∷◌, Option, none, some, ok, arith, Bool-cases,
  Option-cases, eq_iff, str_eq, Bool, true, false, subst, ◌⊎◌, if◌then◌else◌,
}
use pingling.Prelude.BTreeMap.{BTreeMap, get, insert, get-insert, contains_key}
use pingling.Core.Registry.{
  CoreDescriptor, linked, FileSystem, CoreRegistry, insert_found, discover_system_cores,
  known_cores, new_registry, register, discover, switch, set_binary_path, active_core, active_type,
  get_core, or_else,
}

abbrev pub Has : {V : Type 0} → BTreeMap V → String → Type 0
Has {V} m k = (v : V) × (get m k ≡ some v)

module _ {V : Type 0} where
  Has-insert : (m : BTreeMap V) (j k : String) (w : V) → Has m k → Has (insert j w m) k
  Has-insert m j k w (v, h) =
      rw (get-insert j k w m)
        (elim (Bool-cases (str_eq j k)) [ inl e ↦ (w, rw e refl) | inr e ↦ (v, rw e h) ])

  Has-inserted : (m : BTreeMap V) (j : String) (w : V) → Has (insert j w m) j
  Has-inserted m j w = rw (get-insert j j w m) (w, ground (arith, eq_iff j j))

  Has-insert_cases :
      (m : BTreeMap V) (j k : String) (w : V) → Has (insert j w m) k → (j ≡ k) ⊎ Has m k
  Has-insert_cases m j k w (v, h) = elim (Bool-cases (str_eq j k)) [
    | inl e ↦ inl ((eq_iff j k).0 e)
    | inr e ↦ inr (v, ground (arith, e, get-insert j k w m))
  ]

insert_found-Has :
    (fs : FileSystem) (t name : String) (found : Option String) (m : BTreeMap CoreDescriptor)
    (k : String)
    → Has m k
    → Has (insert_found fs t name found m) k
unfolding insert_found
insert_found-Has fs t name none m k h = h
insert_found-Has fs t name (some path) m k h = Has-insert m t k _ h

either-Has :
    (b : Bool) (m n : BTreeMap CoreDescriptor) (k : String)
    → Has m k
    → Has n k
    → Has (if b then m else n) k
either-Has true m n k h i = h
either-Has false m n k h i = i

discover_system_cores-Has :
    (fs : FileSystem) (known : List (String × String)) (m : BTreeMap CoreDescriptor) (k : String)
    → Has m k
    → Has (discover_system_cores fs known m) k
unfolding discover_system_cores
discover_system_cores-Has fs [] m k h = h
discover_system_cores-Has fs ((t, name) ∷ known) m k h = discover_system_cores-Has fs known _ k (
    either-Has (contains_key m t) m (insert_found fs t name (fs.which t) m) k h
      (insert_found-Has fs t name (fs.which t) m k h))

or_else-cases :
    {A : Type 0} (a b : Option A) (x : A)
    → or_else a b ≡ some x
    → (a ≡ some x) ⊎ ((a ≡ none) × (b ≡ some x))
or_else-cases none b x h = inr (refl, h)
or_else-cases (some y) b x h = inl h

or_else-none : {A : Type 0} (a b : Option A) → or_else a b ≡ none → (a ≡ none) × (b ≡ none)
or_else-none none b h = (refl, h)
or_else-none (some y) b h = cc

module _ {C : Type 0} where
  -- The active type has a core, every core has a descriptor, and without an active type there is
  -- no core.
  pub record IsValid (r : CoreRegistry C) : Type 0 where
    pub loaded : (k : String) → r.active ≡ some k → Has r.cores k
    pub described : (k : String) → Has r.cores k → Has r.descriptors k
    pub idle : r.active ≡ none → r.cores ≡ []

  pub new_registry-IsValid : IsValid new_registry
  unfolding new_registry get
  new_registry-IsValid = record { loaded = λ k h. cc; described = λ k (v, h). cc; idle = λ h. refl }

  pub register-IsValid :
      (r : CoreRegistry C) (d : CoreDescriptor) (c : C) → IsValid r → IsValid (register r d c)
  unfolding register
  register-IsValid r d c v = record {
    loaded = λ k h. elim (or_else-cases r.active (some d.core_type) k h) [
      | inl old ↦ Has-insert r.cores d.core_type k c (v.loaded k old)
      | inr (idle, new) ↦
          let same : d.core_type ≡ k = cc in
          subst (λ t. Has (insert d.core_type c r.cores) t) same
            (Has-inserted r.cores d.core_type c)
    ];
    described = λ k h. elim (Has-insert_cases r.cores d.core_type k c h) [
      | inl same ↦
          subst (λ t. Has (insert d.core_type d r.descriptors) t) same
            (Has-inserted r.descriptors d.core_type d)
      | inr old ↦ Has-insert r.descriptors d.core_type k d (v.described k old)
    ];
    idle = λ h. let (a, b) = or_else-none r.active (some d.core_type) h in cc;
  }

  pub discover-IsValid :
      (fs : FileSystem) (r : CoreRegistry C) → IsValid r → IsValid (discover fs r)
  unfolding discover
  discover-IsValid fs r v = record {
    loaded = λ k h. elim (or_else-cases r.active _ k h) [
      | inl old ↦ v.loaded k old
      | inr (idle, first) ↦ absurd (ground (arith, v.idle idle, first))
    ];
    described = λ k h. discover_system_cores-Has fs known_cores r.descriptors k (v.described k h);
    idle = λ h. v.idle ((or_else-none r.active _ h).0);
  }

  pub switched :
      (r r' : CoreRegistry C) (t : String)
      → switch r t ≡ ok r'
      → (r' ≡ record r { active = some t }) × Has r.cores t
  unfolding switch
  switched r r' t h = elim (Option-cases (get r.cores t)) [
    | inl e ↦ absurd (ground (arith, e))
    | inr (c, e) ↦ (ground (arith, e), (c, e))
  ]

  pub switch-IsValid :
      (r r' : CoreRegistry C) (t : String) → switch r t ≡ ok r' → IsValid r → IsValid r'
  switch-IsValid r r' t h v =
      let (same, has) = switched r r' t h in
      rw same (record {
        loaded = λ k e. let f : t ≡ k = cc in subst (λ x. Has r.cores x) f has;
        described = v.described;
        idle = λ e. absurd (ground (arith, e));
      })

  set_path :
      (fs : FileSystem) (r r' : CoreRegistry C) (t path : String)
      → set_binary_path fs r t path ≡ ok r'
      → (d : CoreDescriptor) × (r' ≡ record r { descriptors = insert t d r.descriptors })
  unfolding set_binary_path
  set_path fs r r' t path h = elim (Option-cases (get r.descriptors t)) [
    | inl e ↦ absurd (ground (arith, e))
    | inr (d, e) ↦ (
      record d { binary_path = some path; available = fs.exists path; source = linked path },
      ground (arith, e),
    )
  ]

  pub set_binary_path-IsValid :
      (fs : FileSystem) (r r' : CoreRegistry C) (t path : String)
      → set_binary_path fs r t path ≡ ok r'
      → IsValid r
      → IsValid r'
  set_binary_path-IsValid fs r r' t path h v =
      let (d, same) = set_path fs r r' t path h in
      rw same (record {
        loaded = v.loaded;
        described = λ k has. Has-insert r.descriptors t k d (v.described k has);
        idle = v.idle;
      })

  -- A switch that succeeds makes the core of that type the active one, and changes neither the
  -- cores nor the descriptors.
  pub switch-active_core :
      (r r' : CoreRegistry C) (t : String)
      → switch r t ≡ ok r'
      → (active_type r' ≡ some t)
        × (active_core r' ≡ get_core r t)
        × (r'.cores ≡ r.cores)
        × (r'.descriptors ≡ r.descriptors)
  unfolding active_type active_core get_core
  switch-active_core r r' t h = rw ((switched r r' t h).0) (refl, refl, refl, refl)

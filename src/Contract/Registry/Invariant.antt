-- ===== src/Contract/Registry/Invariant.antt =====
-- Every registry that `register` builds is valid.
use pingling.Prelude.{◌≡◌, refl, inl, inr, List, [], ◌∷◌, In, All, ok, err, Result-cases}
use pingling.Prelude.BTreeMap.{insert, IsMap, insert-IsMap, All-insert, values-insert_cases}
use pingling.Contract.Failure.{HostResult}
use pingling.Contract.Package.{Json}
use pingling.Contract.Manifest.{PluginManifest, validate_manifest}
use pingling.Contract.Merged.{package_methods, package_events}
use pingling.Contract.Registry.{
  PluginRegistry, manifests, register, empty_registry, bindings_for, all_bindings,
}
use pingling.Prelude.Sort.{sort_by}
use pingling.Contract.Registry.Register.{Registered, register-Registered}
use pingling.Contract.Registry.Owners.{IsExclusive, insert-IsExclusive}
use pingling.Contract.Registry.Names.{HasOneOwner, insert-HasOneOwner, check_names-AllFree}

module _ {V : Type 0} ⦃j : Json V⦄ where
  pub record IsValid (r : PluginRegistry V) : Type 0 where
    pub ordered : IsMap r.plugins
    pub keyed : All (λ e. e.0 ≡ e.1.id) r.plugins
    pub validated : (m : PluginManifest V) → In m (manifests r) → validate_manifest m ≡ ok tt
    pub exclusive : IsExclusive r
    pub one_method_owner : HasOneOwner package_methods r
    pub one_event_owner : HasOneOwner package_events r

  insert-IsValid :
      (r : PluginRegistry V) (m : PluginManifest V) (r' : PluginRegistry V)
      → Registered r m r'
      → IsValid r
      → IsValid (record { plugins = insert m.id m r.plugins })
  insert-IsValid r m r' h v =
      let free = check_names-AllFree r m h.names in
      record {
        ordered = insert-IsMap m.id m r.plugins v.ordered;
        keyed = All-insert _ m.id m r.plugins refl v.keyed;
        validated = λ x k. elim (values-insert_cases x m.id m r.plugins k) [
          | inl e ↦ rw e h.valid
          | inr old ↦ v.validated x old
        ];
        exclusive = insert-IsExclusive r m h.candidates v.exclusive;
        one_method_owner = insert-HasOneOwner package_methods r m free.0 v.one_method_owner;
        one_event_owner = insert-HasOneOwner package_events r m free.1 v.one_event_owner;
      }

  -- Registering a plugin in a valid registry leaves a valid one: the plugins stand in the order
  -- of their ids, each under its own id, every manifest passes its validation, a single owner of
  -- a slot phase is the only plugin there, and no method or event name of a package has two owners.
  pub register-IsValid :
      (r : PluginRegistry V) (m : PluginManifest V) (r' : PluginRegistry V)
      → register r m ≡ ok r'
      → IsValid r
      → IsValid r'
  register-IsValid r m r' h v =
      let done = register-Registered r m h in rw done.result (insert-IsValid r m r' done v)

  -- A host that registers one manifest after the other, and keeps the registry when one is refused.
  abbrev keep_or : PluginRegistry V → HostResult (PluginRegistry V) → PluginRegistry V
  keep_or r (ok r') = r'
  keep_or r (err e) = r

  pub register_all : PluginRegistry V → List (PluginManifest V) → PluginRegistry V
  register_all r [] = r
  register_all r (m ∷ ms) = register_all (keep_or r (register r m)) ms

  keep_or-IsValid :
      (r : PluginRegistry V) (m : PluginManifest V) → IsValid r → IsValid (keep_or r (register r m))
  keep_or-IsValid r m v = elim (Result-cases (register r m)) [
    | inl (r', e) ↦ rw e (register-IsValid r m r' e v)
    | inr (f, e) ↦ rw e v
  ]

  register_all-IsValid :
      (r : PluginRegistry V) (ms : List (PluginManifest V))
      → IsValid r
      → IsValid (register_all r ms)
  unfolding register_all
  register_all-IsValid r [] v = v
  register_all-IsValid r (m ∷ ms) v =
      register_all-IsValid (keep_or r (register r m)) ms (keep_or-IsValid r m v)

  pub empty-IsValid : IsValid empty_registry
  unfolding empty_registry bindings_for all_bindings sort_by
  empty-IsValid = record {
    ordered = tt;
    keyed = tt;
    validated = λ m k. absurd k;
    exclusive = λ slot phase b b' h h' e. absurd h;
    one_method_owner = λ m m' p p' n k k' e e' i i'. absurd k;
    one_event_owner = λ m m' p p' n k k' e e' i i'. absurd k;
  }

  -- Whatever manifests a host tries to register, in whatever order, its registry is valid: its
  -- plugins stand in the order of their ids, each under its own id; every manifest passed its
  -- validation; where a plugin owns a slot phase alone, all bindings of the phase are that
  -- plugin's; and no two plugins have a method or an event of a package in common.
  pub register_all_empty-IsValid :
      (ms : List (PluginManifest V)) → IsValid (register_all empty_registry ms)
  register_all_empty-IsValid ms = register_all-IsValid empty_registry ms empty-IsValid

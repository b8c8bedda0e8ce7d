-- ===== src/Runtime/Loaded/Register.antt =====
-- Registration of a loaded plugin: whatever the registry indexes is loaded.
use pingling.Prelude.{
  ◌≡◌, sym, ap, subst, inl, inr, List, [], ◌∷◌, some, ok, err, arith, In, Result-cases, eq_iff,
  str_eq, Bool-cases,
}
use pingling.Prelude.BTreeMap.{get, insert, get-insert, values-insert_cases}
use pingling.Contract.Failure.{HostResult}
use pingling.Contract.Slot.{Slot, SlotPhase}
use pingling.Contract.Package.{Json}
use pingling.Contract.Manifest.{PluginManifest}
use pingling.Contract.Registry.{
  PluginRegistry, PluginBinding, manifests, bindings_for, empty_registry,
}
use pingling.Contract.Registry as Registry
use pingling.Contract.Registry.Register.{Registered, register-Registered}
use pingling.Contract.Registry.Bindings.{In-bindings_for}
use pingling.Runtime.Plugin.{Plugin}
use pingling.Runtime.Loaded.{LoadedPluginRegistry, register, empty_loaded}

module _ {V W : Type 0} ⦃j : Json V⦄ where
  pub register-inv :
      (r : LoadedPluginRegistry V W) (m : PluginManifest V) (plugin : Plugin V W)
      (r' : LoadedPluginRegistry V W)
      → register r m plugin ≡ ok r'
      → Registered r.registry m r'.registry × (r'.plugins ≡ insert m.id plugin r.plugins)
  unfolding register
  register-inv r m plugin r' h = elim (Result-cases (Registry.register r.registry m)) [
    | inl (reg, e) ↦
        let same : r' ≡ record { registry = reg; plugins = insert m.id plugin r.plugins } =
          ground (arith, e) in
        (
          subst (λ (x : LoadedPluginRegistry V W). Registered r.registry m x.registry) (sym same)
              (register-Registered r.registry m e),
          ap (λ (x : LoadedPluginRegistry V W). x.plugins) same,
        )
    | inr (f, e) ↦ absurd (ground (arith, e))
  ]

  -- Every plugin that the registry indexes is loaded.
  abbrev pub IsLoaded : LoadedPluginRegistry V W → Type 0
  IsLoaded r =
      (m : PluginManifest V)
      → In m (manifests r.registry)
      → (plugin : Plugin V W) × (get r.plugins m.id ≡ some plugin)

  register-IsLoaded :
      (r : LoadedPluginRegistry V W) (m : PluginManifest V) (plugin : Plugin V W)
      (r' : LoadedPluginRegistry V W)
      → register r m plugin ≡ ok r'
      → IsLoaded r
      → IsLoaded r'
  register-IsLoaded r m plugin r' h v x k =
      let (done, plugins) = register-inv r m plugin r' h in
      let k' : In x (manifests (record { plugins = insert m.id m r.registry.plugins })) =
        subst (λ (reg : PluginRegistry V). In x (manifests reg)) done.result k in
      rw (plugins, get-insert)
        (elim (Bool-cases (str_eq m.id x.id)) [
          | inl same ↦ (plugin, rw same)
          | inr other ↦ elim (values-insert_cases x m.id m r.registry.plugins k') [
            | inl e ↦ absurd (ground (arith, eq_iff m.id x.id))
            | inr old ↦ let (p, found) = v x old in (p, rw (other, found))
          ]
        ])

  -- A host that loads one plugin after the other, and goes on when one is refused.
  abbrev keep_or :
      LoadedPluginRegistry V W → HostResult (LoadedPluginRegistry V W) → LoadedPluginRegistry V W
  keep_or r (ok r') = r'
  keep_or r (err e) = r

  unfoldable pub register_all :
      LoadedPluginRegistry V W → List (PluginManifest V × Plugin V W) → LoadedPluginRegistry V W
  register_all r [] = r
  register_all r ((m, plugin) ∷ rest) = register_all (keep_or r (register r m plugin)) rest

  keep_or-IsLoaded :
      (r : LoadedPluginRegistry V W) (m : PluginManifest V) (plugin : Plugin V W)
      → IsLoaded r
      → IsLoaded (keep_or r (register r m plugin))
  keep_or-IsLoaded r m plugin v = elim (Result-cases (register r m plugin)) [
    | inl (r', e) ↦ rw e (register-IsLoaded r m plugin r' e v)
    | inr (f, e) ↦ rw e v
  ]

  register_all-IsLoaded :
      (r : LoadedPluginRegistry V W) (plugins : List (PluginManifest V × Plugin V W))
      → IsLoaded r
      → IsLoaded (register_all r plugins)
  unfolding register_all
  register_all-IsLoaded r [] v = v
  register_all-IsLoaded r ((m, plugin) ∷ rest) v =
      register_all-IsLoaded (keep_or r (register r m plugin)) rest (keep_or-IsLoaded r m plugin v)

  empty-IsLoaded : IsLoaded empty_loaded
  unfolding empty_loaded empty_registry
  empty-IsLoaded m k = absurd k

  pub register_all_empty-IsLoaded :
      (plugins : List (PluginManifest V × Plugin V W))
      → IsLoaded (register_all empty_loaded plugins)
  register_all_empty-IsLoaded plugins = register_all-IsLoaded empty_loaded plugins empty-IsLoaded

  -- Whatever plugins a host tries to load, in whatever order, each binding of a slot phase names a
  -- plugin that is loaded, so that a run never meets one that is "indexed but not loaded".
  pub bindings_for_loaded :
      (plugins : List (PluginManifest V × Plugin V W)) (slot : Slot) (phase : SlotPhase)
      (b : PluginBinding)
      → In b (bindings_for (register_all empty_loaded plugins).registry slot phase)
      → (plugin : Plugin V W) × (get (register_all empty_loaded plugins).plugins b.plugin_id
          ≡ some plugin)
  bindings_for_loaded plugins slot phase b h =
      let r = register_all empty_loaded plugins in
      let o = (In-bindings_for r.registry slot phase b).0 h in
      subst (λ (x : PluginBinding). (p : Plugin V W) × (get r.plugins x.plugin_id ≡ some p))
        (sym o.made) (register_all_empty-IsLoaded plugins o.manifest o.registered)

-- ===== src/Contract/Registry/Names.antt =====
-- Methods and events of packages have one owner each.
use pingling.Prelude.{
  String, ◌≡◌, sym, ◌∙◌, ap, inl, inr, List, [], ◌∷◌, true, In, arith, eq_iff, Option, none, some,
  ok, for_each-In, >>-eq-ok, str_eq, any,
}
use pingling.Prelude.BTreeMap.{insert, values-insert_cases}
use pingling.Contract.Package.{Json, IpcPackageDescriptor}
use pingling.Contract.Manifest.{PluginManifest, normalized_package}
use pingling.Contract.Merged.{package_methods, package_events}
use pingling.Contract.Registry.{
  PluginRegistry, manifests, check_names, first_owner, check_unclaimed,
}

pub In-any : (n : String) (ns : List String) → In n ns → any (λ k. str_eq k n) ns ≡ true
In-any n [] h = absurd h
In-any n (k ∷ ns) h = ground (arith, In-any n ns, eq_iff k n)

unclaimed-none :
    (item : String) (o : Option String) (n : String) → check_unclaimed item o n ≡ ok tt → o ≡ none
unfolding check_unclaimed
unclaimed-none item o n h = ground arith

module _ {V : Type 0} ⦃j : Json V⦄ (names : IpcPackageDescriptor V → List String) where
  no_owner :
      (n : String) (ms : List (PluginManifest V)) (m : PluginManifest V)
      (p : IpcPackageDescriptor V)
      → first_owner names ms n ≡ none
      → In m ms
      → normalized_package m ≡ some p
      → In n (names p)
      → ⊥
  unfolding first_owner
  no_owner n [] m p h k e i = absurd k
  no_owner n (x ∷ ms) m p h (inl s) e i =
      let e' : normalized_package x ≡ some p =
        sym (ap (λ (y : PluginManifest V). normalized_package y) s) ∙ e in
      ground (arith, In-any n (names p) i)
  no_owner n (x ∷ ms) m p h (inr k) e i = ground (arith, no_owner n ms m p)

  -- No name of this sort is in the packages of two plugins.
  abbrev pub HasOneOwner : PluginRegistry V → Type 0
  HasOneOwner r =
      (m m' : PluginManifest V) (p p' : IpcPackageDescriptor V) (n : String)
      → In m (manifests r)
      → In m' (manifests r)
      → normalized_package m ≡ some p
      → normalized_package m' ≡ some p'
      → In n (names p)
      → In n (names p')
      → m.id ≡ m'.id

  -- The loop of the check passed: none of the new names is taken.
  abbrev pub AllFree : PluginRegistry V → PluginManifest V → Type 0
  AllFree r m =
      (p : IpcPackageDescriptor V) (n : String)
      → normalized_package m ≡ some p
      → In n (names p)
      → first_owner names (manifests r) n ≡ none

  pub insert-HasOneOwner :
      (r : PluginRegistry V) (m : PluginManifest V)
      → AllFree r m
      → HasOneOwner r
      → HasOneOwner (record { plugins = insert m.id m r.plugins })
  insert-HasOneOwner r m free v x x' p p' n h h' e e' i i' =
      elim (values-insert_cases x m.id m r.plugins h) [
        | inl s ↦ elim (values-insert_cases x' m.id m r.plugins h') [
          | inl s' ↦ cc
          | inr old' ↦ absurd (
              no_owner n (manifests r) x' p'
                (free p n (sym (ap (λ (y : PluginManifest V). normalized_package y) s) ∙ e) i) old'
                e' i')
        ]
        | inr old ↦ elim (values-insert_cases x' m.id m r.plugins h') [
          | inl s' ↦ absurd (
              no_owner n (manifests r) x p
                (free p' n (sym (ap (λ (y : PluginManifest V). normalized_package y) s') ∙ e') i')
                old e i)
          | inr old' ↦ v x x' p p' n old old' e e' i i'
        ]
      ]

module _ {V : Type 0} ⦃j : Json V⦄ (r : PluginRegistry V) (m : PluginManifest V) where
  pub check_names-AllFree :
      check_names r m ≡ ok tt → AllFree package_methods r m × AllFree package_events r m
  unfolding check_names
  check_names-AllFree h = (
    λ p n e i.
        let loops = >>-eq-ok _ _ (rw (e, check_names) at h) in
        unclaimed-none "method" _ n (for_each-In _ n (package_methods p) loops.0 i),
    λ p n e i.
        let loops = >>-eq-ok _ _ (rw (e, check_names) at h) in
        unclaimed-none "event" _ n (for_each-In _ n (package_events p) loops.1 i),
  )

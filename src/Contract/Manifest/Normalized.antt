-- ===== src/Contract/Manifest/Normalized.antt =====
-- A valid manifest has a normalised package, and what the package requires.
use pingling.Prelude.{
  String, ◌≡◌, refl, inl, inr, List, [], ◌∷◌, ◌++◌, true, ◌||◌, none, some, ok, for_each, >>-eq-ok,
  In, In-append_left, In-append_right, arith, any, eq_iff, str_eq, Bool-cases, Option-cases,
}
use pingling.Prelude.Text.{ends_with, strip_suffix}
use pingling.Contract.Token.{validate_token, validate_method_pattern, validate_host_pattern}
use pingling.Contract.Token.Laws.{validate_token_any_kind, exact_pattern-token}
use pingling.Contract.Package.{
  Json, IpcPackageDescriptor, MethodDescriptor, HostCapabilityDescriptor, HostCapabilityKind,
  http_host, need, new_package, opaque_method, new_method, bare_package, bare_method,
  default_open_schema,
}
use pingling.Contract.Manifest.{
  PluginManifest, validate_manifest, normalized_package, base_package, package_methods, add_methods,
  complete_package, merge_capabilities, merge_manifest_capabilities, capability_eq,
}

module _ {V : Type 0} where
  -- The checks of `validate_manifest`, passed.
  pub record Checked (m : PluginManifest V) : Type 0 where
    pub id_token : validate_token "plugin id" m.id ≡ ok tt
    pub methods : for_each m.methods validate_method_pattern ≡ ok tt
    pub needs : for_each m.needs (λ n. validate_token "capability" n) ≡ ok tt
    pub hosts : for_each m.allowed_hosts validate_host_pattern ≡ ok tt

  pub validate_manifest-Checked : (m : PluginManifest V) → validate_manifest m ≡ ok tt → Checked m
  unfolding validate_manifest
  validate_manifest-Checked m h = ground arith

module _ {V : Type 0} ⦃j : Json V⦄ where
  opaque-some :
      (name : String)
      → validate_token "method" name ≡ ok tt
      → (d : MethodDescriptor V) × (opaque_method name ≡ ok d)
  unfolding opaque_method new_method
  opaque-some name h = (bare_method name default_open_schema, rw h)

  add_methods_total :
      (methods : List (MethodDescriptor V)) (names : List String)
      → for_each names validate_method_pattern ≡ ok tt
      → (all : List (MethodDescriptor V)) × (add_methods methods names ≡ some all)
  unfolding add_methods
  add_methods_total methods [] h = (methods, refl)
  add_methods_total methods (name ∷ names) h =
      let (first, rest) = >>-eq-ok (validate_method_pattern name) _ h in
      elim (Bool-cases (ends_with ".*" name || any (λ d. str_eq d.name name) methods)) [
        | inl skip ↦ rw skip (add_methods_total methods names rest)
        | inr fresh ↦
            let exact : strip_suffix ".*" name ≡ none = ground arith in
            let (d, e) = opaque-some name (exact_pattern-token name exact first) in
            rw (fresh, e) (add_methods_total (methods ++ d ∷ []) names rest)
      ]

  package-some :
      (m : PluginManifest V)
      → Checked m
      → (p : IpcPackageDescriptor V) × (base_package m ≡ some p)
        × ((all : List (MethodDescriptor V)) × (package_methods m p.methods ≡ some all))
  unfolding base_package package_methods new_package
  package-some m c = elim (Option-cases m.package_descriptor) [
    | inr (p, e) ↦ (p, rw (e, base_package), (p.methods, rw (e, package_methods)))
    | inl e ↦
        let token = validate_token_any_kind "plugin id" "package id" m.id c.id_token in
        let (all, done) = add_methods_total [] m.methods c.methods in
        (bare_package m.id, rw (e, base_package, token), (all, rw (e, package_methods, done)))
  ]

  -- Every manifest that passes its validation has a normalised package: the two early returns of
  -- `normalized_package` with nothing are never taken.
  pub normalized_package_total :
      (m : PluginManifest V)
      → validate_manifest m ≡ ok tt
      → (p : IpcPackageDescriptor V) × (normalized_package m ≡ some p)
  unfolding normalized_package
  normalized_package_total m h =
      let (p, base, (all, done)) = package-some m (validate_manifest-Checked m h) in
      (complete_package m p all, rw (base, done, normalized_package))

capability_eq→≡ : (a b : HostCapabilityDescriptor) → capability_eq a b ≡ true → a ≡ b
capability_eq→≡ a b h = ground (arith, eq_iff a.name b.name)

any_capability-In :
    (c : HostCapabilityDescriptor) (indexed : List HostCapabilityDescriptor)
    → any (λ i. capability_eq i c) indexed ≡ true
    → In c indexed
any_capability-In c [] h = cc
any_capability-In c (i ∷ is) h = ground (arith, any_capability-In c is, capability_eq→≡ i c)

abbrev Within : List HostCapabilityDescriptor → List HostCapabilityDescriptor → Type 0
Within xs ys = (c : HostCapabilityDescriptor) → In c xs → In c ys

abbrev capability : HostCapabilityKind → String → HostCapabilityDescriptor
capability kind name = record { kind = kind; name = name }

-- What one loop of `merge_manifest_capabilities` does to its two variables.
record Merges (kind : HostCapabilityKind) (indexed capabilities : List HostCapabilityDescriptor)
    (names : List String) (indexed' capabilities' : List HostCapabilityDescriptor) : Type 0 where
  within : Within indexed' capabilities'
  keeps : Within capabilities capabilities'
  adds : (name : String) → In name names → In (capability kind name) capabilities'

merge_capabilities-Merges :
    (kind : HostCapabilityKind) (indexed capabilities : List HostCapabilityDescriptor)
    (names : List String)
    → Within indexed capabilities
    → Merges kind indexed capabilities names
        (merge_capabilities kind indexed capabilities names).0
        (merge_capabilities kind indexed capabilities names).1
unfolding merge_capabilities
merge_capabilities-Merges kind indexed capabilities [] w = record {
  within = w;
  keeps = λ c i. i;
  adds = λ n i. absurd i;
}
merge_capabilities-Merges kind indexed capabilities (name ∷ names) w =
    let c = capability kind name in
    elim (Bool-cases (any (λ i. capability_eq i c) indexed)) [
      | inl old ↦
          let rest = merge_capabilities-Merges kind indexed capabilities names w in
          rw (old, merge_capabilities)
            (record {
              within = rest.within;
              keeps = rest.keeps;
              adds = λ n i. elim i [
                | inl e ↦ rw e (rest.keeps c (w c (any_capability-In c indexed old)))
                | inr later ↦ rest.adds n later
              ];
            })
      | inr new ↦
          let rest =
            merge_capabilities-Merges kind (c ∷ indexed) (capabilities ++ c ∷ []) names (λ d i.
              elim i [
                | inl e ↦ In-append_right d capabilities (c ∷ []) (inl e)
                | inr k ↦ In-append_left d capabilities (c ∷ []) (w d k)
              ]) in
          rw (new, merge_capabilities)
            (record {
              within = rest.within;
              keeps = λ d i. rest.keeps d (In-append_left d capabilities (c ∷ []) i);
              adds = λ n i. elim i [
                | inl e ↦ rw e (rest.keeps c (In-append_right c capabilities (c ∷ []) (inl refl)))
                | inr later ↦ rest.adds n later
              ];
            })
    ]

-- The capabilities of the package, of the needs and of the hosts are all there.
pub merge_manifest_capabilities-In :
    (capabilities : List HostCapabilityDescriptor) (needs hosts : List String) (host : String)
    → In host hosts
    → In (capability http_host host) (merge_manifest_capabilities capabilities needs hosts)
unfolding merge_manifest_capabilities
merge_manifest_capabilities-In capabilities needs hosts host i =
    let first = merge_capabilities-Merges need capabilities capabilities needs (λ c k. k) in
    (merge_capabilities-Merges http_host _ _ hosts first.within).adds host i

module _ {V : Type 0} ⦃j : Json V⦄ where
  -- A normalised package requires each host that its manifest allows.
  pub normalized_package-host :
      (m : PluginManifest V) (p : IpcPackageDescriptor V) (host : String)
      → normalized_package m ≡ some p
      → In host m.allowed_hosts
      → In (capability http_host host) p.required_capabilities
  unfolding normalized_package complete_package
  normalized_package-host m p host h i = elim (Option-cases (base_package m)) [
    | inl e ↦ ground (arith, e)
    | inr (b, e) ↦ elim (Option-cases (package_methods m b.methods)) [
      | inl f ↦ ground (arith, e, f)
      | inr (all, f) ↦
          let same : p ≡ complete_package m b all = ground (arith, e, f) in
          rw same
            (merge_manifest_capabilities-In b.required_capabilities m.needs m.allowed_hosts host i)
    ]
  ]

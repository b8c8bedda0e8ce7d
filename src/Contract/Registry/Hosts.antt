-- ===== src/Contract/Registry/Hosts.antt =====
-- What `merged_contract` does with a manifest's allowed hosts.
use pingling.Prelude.{
  String, ◌≡◌, ◌≢◌, refl, List, [], ◌∷◌, ok, err, for_each, for_each-In, In, arith, Option-cases,
  Result-cases, inl, inr,
}
use pingling.Contract.Failure.{HostFailure}
use pingling.Contract.Token.{validate_token}
use pingling.Contract.Package.{
  Json, IpcPackageDescriptor, HostCapabilityDescriptor, validate_package,
}
use pingling.Contract.Manifest.{PluginManifest, validate_manifest, normalized_package}
use pingling.Contract.Manifest.Normalized.{normalized_package_total, normalized_package-host}
use pingling.Contract.Merged.{MergedContractRegistry, register_package, empty_merged}
use pingling.Contract.Registry.{PluginRegistry, manifests, merge_all, merged_contract}

module _ {V : Type 0} where
  validate_package-capabilities :
      (p : IpcPackageDescriptor V)
      → validate_package p ≡ ok tt
      → for_each p.required_capabilities (λ c. validate_token "capability" c.name) ≡ ok tt
  unfolding validate_package
  validate_package-capabilities p h = ground arith

  register_package-validate :
      (merged merged' : MergedContractRegistry V) (p : IpcPackageDescriptor V)
      → register_package merged p ≡ ok merged'
      → validate_package p ≡ ok tt
  unfolding register_package
  register_package-validate merged merged' p h = ground arith

  -- A package is refused when the name of a required capability is not a token.
  register_package-capability :
      (merged : MergedContractRegistry V) (p : IpcPackageDescriptor V)
      (c : HostCapabilityDescriptor)
      → In c p.required_capabilities
      → validate_token "capability" c.name ≢ ok tt
      → (e : HostFailure) × (register_package merged p ≡ err e)
  register_package-capability merged p c i bad = elim (Result-cases (register_package merged p)) [
    | inr refused ↦ refused
    | inl (merged', h) ↦
        let valid = register_package-validate merged merged' p h in
        absurd
          (bad (for_each-In _ c p.required_capabilities (validate_package-capabilities p valid) i))
  ]

  module _ ⦃j : Json V⦄ (m : PluginManifest V) (host : String) where
    merge_all-host :
        (merged : MergedContractRegistry V) (ms : List (PluginManifest V))
        → In m ms
        → validate_manifest m ≡ ok tt
        → In host m.allowed_hosts
        → validate_token "capability" host ≢ ok tt
        → (e : HostFailure) × (merge_all merged ms ≡ err e)
    unfolding merge_all
    merge_all-host merged [] i valid allowed bad = absurd i
    merge_all-host merged (n ∷ ns) (inl same) valid allowed bad =
        let (p, total) = normalized_package_total m valid in
        let required = normalized_package-host m p host total allowed in
        let (e, refused) = register_package-capability merged p _ required bad in
        (e, ground (arith, same, total, refused))
    merge_all-host merged (n ∷ ns) (inr later) valid allowed bad =
        elim (Option-cases (normalized_package n)) [
          | inl skipped ↦ rw (skipped, merge_all) (merge_all-host merged ns later valid allowed bad)
          | inr (p, found) ↦ elim (Result-cases (register_package merged p)) [
            | inr (e, refused) ↦ (e, rw (found, merge_all, refused) refl)
            | inl (merged', done) ↦
                rw (found, merge_all, done) (merge_all-host merged' ns later valid allowed bad)
          ]
        ]

    -- A registry with a validated plugin whose allowed host is not a token has no merged contract:
    -- the manifest's host pattern becomes a capability of its package, and capabilities are tokens.
    pub merged_contract-host :
        (r : PluginRegistry V)
        → In m (manifests r)
        → validate_manifest m ≡ ok tt
        → In host m.allowed_hosts
        → validate_token "capability" host ≢ ok tt
        → (e : HostFailure) × (merged_contract r ≡ err e)
    unfolding merged_contract
    merged_contract-host r i valid allowed bad =
        merge_all-host empty_merged (manifests r) i valid allowed bad

-- ===== src/Contract/Registry/Register.antt =====
-- What a successful `register` checked, and what it leaves behind.
use pingling.Prelude.{◌≡◌, arith, none, ok, for_each}
use pingling.Prelude.BTreeMap.{get, insert}
use pingling.Contract.Package.{Json}
use pingling.Contract.Manifest.{PluginManifest, validate_manifest}
use pingling.Contract.Registry.{
  PluginRegistry, register, check_candidate, check_names, validate_single_owner_conflicts,
}

module _ {V : Type 0} ⦃j : Json V⦄ where
  -- The checks of `register`, passed.
  pub record Registered (r : PluginRegistry V) (m : PluginManifest V) (r' : PluginRegistry V)
      : Type 0 where
    pub valid : validate_manifest m ≡ ok tt
    pub fresh : get r.plugins m.id ≡ none
    pub candidates : for_each m.slots (check_candidate r) ≡ ok tt
    pub names : check_names r m ≡ ok tt
    pub result : r' ≡ record { plugins = insert m.id m r.plugins }

  pub register-Registered :
      (r : PluginRegistry V) (m : PluginManifest V) {r' : PluginRegistry V}
      → register r m ≡ ok r'
      → Registered r m r'
  unfolding register validate_single_owner_conflicts
  register-Registered r m h = ground arith

-- ===== src/Contract/Manifest.antt =====
-- `PluginManifest` of host-contract/src/lib.rs.
pub mod Normalized
use pingling.Prelude.{
  String, List, [], ◌∷◌, ◌++◌, Option, none, some, Bool, ok, ◌>>◌, reject_if, not, if_some,
  for_each, ◌&&◌, ◌||◌, is_empty, any, str_eq, if◌then◌else◌, map, to_option,
}
use pingling.Prelude.Int.{ℤ, pos}
use pingling.Prelude.Text.{format, ends_with}
use pingling.Prelude.BTreeMap.{set_extend}
use pingling.Contract.Failure.{HostResult, invalid_input}
use pingling.Contract.Token.{validate_token, validate_method_pattern, validate_host_pattern}
use pingling.Contract.Slot.{SlotBinding, binding_eq}
use pingling.Contract.Package.{
  Json, IpcPackageDescriptor, MethodDescriptor, HostCapabilityDescriptor, HostCapabilityKind, need,
  http_host, kind_eq, new_package, opaque_method, validate_package,
}

pub record PluginManifest (V : Type 0) : Type 0 where
  pub id : String
  pub priority : ℤ
  pub methods : List String
  pub slots : List SlotBinding
  pub needs : List String
  pub allowed_hosts : List String
  pub package_descriptor : Option (IpcPackageDescriptor V)

abbrev pub capability_eq : HostCapabilityDescriptor → HostCapabilityDescriptor → Bool
capability_eq a b = kind_eq a.kind b.kind && str_eq a.name b.name

-- One loop of `merge_manifest_capabilities`: `indexed.insert` answers whether the pair is new.
unfoldable pub merge_capabilities :
    HostCapabilityKind
    → (indexed capabilities : List HostCapabilityDescriptor) → List String
    → List HostCapabilityDescriptor × List HostCapabilityDescriptor
merge_capabilities kind indexed capabilities [] = (indexed, capabilities)
merge_capabilities kind indexed capabilities (name ∷ names) =
    let c : HostCapabilityDescriptor = record { kind = kind; name = name } in
    let old = any (λ i. capability_eq i c) indexed in
    merge_capabilities kind (if old then indexed else c ∷ indexed)
      (if old then capabilities else capabilities ++ c ∷ []) names

unfoldable pub merge_manifest_capabilities :
    List HostCapabilityDescriptor → List String → List String → List HostCapabilityDescriptor
merge_manifest_capabilities capabilities needs allowed_hosts =
    let (indexed, merged) = merge_capabilities need capabilities capabilities needs in
    (merge_capabilities http_host indexed merged allowed_hosts).1

-- `for slot in &self.slots { if !package.slots.contains(slot) { package.slots.push(..) } }`
unfoldable pub add_slots : List SlotBinding → List SlotBinding → List SlotBinding
add_slots slots [] = slots
add_slots slots (s ∷ more) =
    add_slots (if any (λ t. binding_eq t s) slots then slots else slots ++ s ∷ []) more

unfoldable pub check_slot : SlotBinding → HostResult (Unit {0})
check_slot slot =
    reject_if (is_empty slot.phases)
      (invalid_input (format ("slot " ∷ slot.name.name ∷ " has no phases" ∷ [])))

module _ {V : Type 0} where
  unfoldable pub new_manifest : String → HostResult (PluginManifest V)
  new_manifest id =
      validate_token "plugin id" id
      >> ok (record {
        id = id;
        priority = pos 0;
        methods = [];
        slots = [];
        needs = [];
        allowed_hosts = [];
        package_descriptor = none;
      })

  unfoldable pub check_package : String → IpcPackageDescriptor V → HostResult (Unit {0})
  check_package id p =
      validate_package p
      >> reject_if (not (str_eq p.id id))
          (invalid_input (format ("manifest id " ∷ id ∷ " does not match package id " ∷ p.id ∷ [])))

  unfoldable pub validate_manifest : PluginManifest V → HostResult (Unit {0})
  validate_manifest m =
      validate_token "plugin id" m.id
      >> for_each m.methods validate_method_pattern
      >> for_each m.needs (λ n. validate_token "capability" n)
      >> for_each m.allowed_hosts validate_host_pattern
      >> for_each m.slots check_slot
      >> if_some m.package_descriptor (check_package m.id)

  module _ ⦃j : Json V⦄ where
    -- The loop over the exact methods of a manifest without a package; `none` is its `ok()?`.
    unfoldable pub add_methods :
        List (MethodDescriptor V) → List String → Option (List (MethodDescriptor V))
    add_methods methods [] = some methods
    add_methods methods (name ∷ names) =
        let skip = add_methods methods names in
        if ends_with ".*" name || any (λ d. str_eq d.name name) methods
        then skip
        else elim (to_option (opaque_method name)) [
          | none ↦ none
          | some d ↦ add_methods (methods ++ d ∷ []) names
        ]

    -- `match &self.package`: the package to start from, and its methods after the loop.
    unfoldable pub base_package : PluginManifest V → Option (IpcPackageDescriptor V)
    base_package m = elim m.package_descriptor [
      | some p ↦ some p
      | none ↦ to_option (new_package m.id)
    ]

    unfoldable pub package_methods :
        PluginManifest V → List (MethodDescriptor V) → Option (List (MethodDescriptor V))
    package_methods m methods = elim m.package_descriptor [
      | some p ↦ some methods
      | none ↦ add_methods methods m.methods
    ]

    unfoldable pub complete_package :
        PluginManifest V
        → IpcPackageDescriptor V
        → List (MethodDescriptor V)
        → IpcPackageDescriptor V
    complete_package m p methods = record p {
      slots = if is_empty p.slots then m.slots else add_slots p.slots m.slots;
      methods = methods;
      required_capabilities =
          merge_manifest_capabilities p.required_capabilities m.needs m.allowed_hosts;
    }

    unfoldable pub normalized_package : PluginManifest V → Option (IpcPackageDescriptor V)
    normalized_package m = elim (base_package m) [
      | none ↦ none
      | some p ↦ elim (package_methods m p.methods) [
        | none ↦ none
        | some methods ↦ some (complete_package m p methods)
      ]
    ]

    abbrev pub method_names : List (MethodDescriptor V) → List String
    method_names methods = map (λ d. d.name) methods

    -- The set of the manifest's patterns and of its package's methods, in order.
    unfoldable pub dispatch_methods : PluginManifest V → List String
    dispatch_methods m =
        let own = set_extend [] m.methods in
        elim (normalized_package m) [
          | none ↦ own
          | some p ↦ set_extend own (method_names p.methods)
        ]

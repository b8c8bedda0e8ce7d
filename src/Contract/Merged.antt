-- ===== src/Contract/Merged.antt =====
-- `MergedContractRegistry` of host-contract/src/contract.rs.
use pingling.Prelude.{
  String, List, [], ◌∷◌, Option, none, some, ok, ◌>>◌, reject_if, for_each, flat_map, map, Ordering,
  err,
}
use pingling.Prelude.Text.{format}
use pingling.Prelude.Order.{str_cmp, then_with}
use pingling.Prelude.Sort.{sort_by}
use pingling.Prelude.BTreeMap.{BTreeMap, get, insert, contains_key}
use pingling.Contract.Failure.{HostResult, HostFailure, invalid_input}
use pingling.Contract.Package.{IpcPackageDescriptor, validate_package}

pub record MergedContractRegistry (V : Type 0) : Type 0 where
  pub packages : BTreeMap (IpcPackageDescriptor V)
  pub method_owners : BTreeMap String
  pub event_owners : BTreeMap String

pub record ContractInventorySummary : Type 0 where
  pub methods : List String
  pub events : List String

unfoldable pub already_owned : String → String → String → HostFailure
already_owned item name owner =
    invalid_input (format (item ∷ " " ∷ name ∷ " is already owned by " ∷ owner ∷ []))

-- `if let Some(owner) = owners.get(name) { return Err(..) }`
unfoldable pub check_unowned : String → BTreeMap String → String → HostResult (Unit {0})
check_unowned item owners name = elim (get owners name) [
  | none ↦ ok tt
  | some owner ↦ err (already_owned item name owner)
]

-- `for name in names { owners.insert(name, id) }`
unfoldable pub insert_owners : String → BTreeMap String → List String → BTreeMap String
insert_owners id owners [] = owners
insert_owners id owners (name ∷ names) = insert_owners id (insert name id owners) names

-- the order of `methods()` and `events()`: by name, then by package
abbrev pub owned_cmp : String × String → String × String → Ordering
owned_cmp a b = then_with (str_cmp a.1 b.1) (str_cmp a.0 b.0)

module _ {V : Type 0} where
  unfoldable pub empty_merged : MergedContractRegistry V
  empty_merged = record { packages = []; method_owners = []; event_owners = [] }

  abbrev pub package_methods : IpcPackageDescriptor V → List String
  package_methods p = map (λ m. m.name) p.methods

  abbrev pub package_events : IpcPackageDescriptor V → List String
  package_events p = map (λ e. e.name) p.events

  unfoldable pub register_package :
      MergedContractRegistry V → IpcPackageDescriptor V → HostResult (MergedContractRegistry V)
  register_package r p =
      validate_package p
      >> reject_if (contains_key r.packages p.id)
          (invalid_input (format ("package " ∷ p.id ∷ " is already registered" ∷ [])))
      >> for_each (package_methods p) (check_unowned "method" r.method_owners)
      >> for_each (package_events p) (check_unowned "event" r.event_owners)
      >> ok (record {
        packages = insert p.id p r.packages;
        method_owners = insert_owners p.id r.method_owners (package_methods p);
        event_owners = insert_owners p.id r.event_owners (package_events p);
      })

  unfoldable pub method_owner : MergedContractRegistry V → String → Option String
  method_owner r method = get r.method_owners method

  unfoldable pub event_owner : MergedContractRegistry V → String → Option String
  event_owner r event = get r.event_owners event

  -- (package id, name), for the descriptors of `methods()`
  unfoldable pub methods : MergedContractRegistry V → List (String × String)
  methods r =
      sort_by owned_cmp
        (flat_map (λ (id, p). map (λ name. (id, name)) (package_methods p)) r.packages)

  unfoldable pub events : MergedContractRegistry V → List (String × String)
  events r =
      sort_by owned_cmp
        (flat_map (λ (id, p). map (λ name. (id, name)) (package_events p)) r.packages)

  unfoldable pub inventory_summary : MergedContractRegistry V → ContractInventorySummary
  inventory_summary r = record {
    methods = map (λ o. o.1) (methods r);
    events = map (λ o. o.1) (events r);
  }

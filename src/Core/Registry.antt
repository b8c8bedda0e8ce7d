-- ===== src/Core/Registry.antt =====
-- `CoreRegistry` of crates/core/src/core_registry.rs, with the descriptors of
-- crates/domain/src/types.rs.
--
-- A core is a value of a type `C`. The file system is a parameter: what `which` finds for a name,
-- and whether a path exists.
pub mod Active
pub mod Commands
use pingling.Prelude.{
  String, List, [], ◌∷◌, Option, none, some, Bool, ok, err, Result, not, if◌then◌else◌, head?, map,
}
use pingling.Prelude.Text.{format}
use pingling.Prelude.BTreeMap.{BTreeMap, get, insert, contains_key, values}
use pingling.Domain.Error.{VpnError, core_not_found, prerequisite_missing}

pub data CoreSource : Type 0 where
  bundled : CoreSource
  linked : String → CoreSource
  system mocked : CoreSource

unfoldable pub source_str : CoreSource → String
source_str bundled = "bundled"
source_str (linked path) = format ("linked:" ∷ path ∷ [])
source_str system = "system"
source_str mocked = "mocked"

pub record CoreDescriptor : Type 0 where
  pub core_type : String
  pub display_name : String
  pub source : CoreSource
  pub binary_path : Option String
  pub available : Bool

pub record FileSystem : Type 0 where
  pub which : String → Option String
  pub exists : String → Bool

pub record CoreRegistry (C : Type 0) : Type 0 where
  pub cores : BTreeMap C
  pub descriptors : BTreeMap CoreDescriptor
  pub active : Option String

-- `known_cores`: the type and the display name
abbrev pub known_cores : List (String × String)
known_cores = ("sing-box", "Sing-Box") ∷ ("xray", "Xray") ∷ []

-- `if let Some(path) = which(core_type)`, with the insertion
unfoldable pub insert_found :
    FileSystem → String → String → Option String → BTreeMap CoreDescriptor → BTreeMap CoreDescriptor
insert_found fs core_type display_name none descriptors = descriptors
insert_found fs core_type display_name (some path) descriptors =
    insert core_type
      (record {
        core_type = core_type;
        display_name = display_name;
        source = system;
        binary_path = some path;
        available = fs.exists path;
      })
      descriptors

-- The loop of `discover_system_cores`.
unfoldable pub discover_system_cores :
    FileSystem → List (String × String) → BTreeMap CoreDescriptor → BTreeMap CoreDescriptor
discover_system_cores fs [] descriptors = descriptors
discover_system_cores fs ((core_type, display_name) ∷ known) descriptors =
    discover_system_cores fs known (
      if contains_key descriptors core_type
      then descriptors
      else insert_found fs core_type display_name (fs.which core_type) descriptors)

-- `if option.is_none() { option = other }`
abbrev pub or_else {ℓ} : {A : Type ℓ} → Option A → Option A → Option A
or_else none other = other
or_else (some a) other = some a

module _ {C : Type 0} where
  unfoldable pub new_registry : CoreRegistry C
  new_registry = record { cores = []; descriptors = []; active = none }

  unfoldable pub register : CoreRegistry C → CoreDescriptor → C → CoreRegistry C
  register r descriptor core = record {
    cores = insert descriptor.core_type core r.cores;
    descriptors = insert descriptor.core_type descriptor r.descriptors;
    active = or_else r.active (some descriptor.core_type);
  }

  unfoldable pub discover : FileSystem → CoreRegistry C → CoreRegistry C
  discover fs r = record r {
    descriptors = discover_system_cores fs known_cores r.descriptors;
    active = or_else r.active (head? (map (λ e. e.0) r.cores));
  }

  unfoldable pub list : CoreRegistry C → List CoreDescriptor
  list r = values r.descriptors

  unfoldable pub descriptor_of : CoreRegistry C → String → Option CoreDescriptor
  descriptor_of r core_type = get r.descriptors core_type

  unfoldable pub active_type : CoreRegistry C → Option String
  active_type r = r.active

  unfoldable pub active_core : CoreRegistry C → Option C
  active_core r = elim r.active [ none ↦ none | some key ↦ get r.cores key ]

  unfoldable pub get_core : CoreRegistry C → String → Option C
  get_core r core_type = get r.cores core_type

  unfoldable pub switch : CoreRegistry C → String → Result (CoreRegistry C) VpnError
  switch r core_type = elim (get r.descriptors core_type) [
    | none ↦ err (core_not_found core_type)
    | some desc ↦
        if not desc.available
        then err (prerequisite_missing (format ("core '" ∷ core_type ∷ "' is not available" ∷ [])))
        else if not (contains_key r.cores core_type)
        then err (core_not_found (format (core_type ∷ " (no registered instance)" ∷ [])))
        else ok (record r { active = some core_type })
  ]

  unfoldable pub set_binary_path :
      FileSystem → CoreRegistry C → String → String → Result (CoreRegistry C) VpnError
  set_binary_path fs r core_type path = elim (get r.descriptors core_type) [
    | none ↦ err (core_not_found core_type)
    | some desc ↦ ok (record r {
      descriptors =
          insert core_type
            (record desc {
              binary_path = some path;
              available = fs.exists path;
              source = linked path;
            })
            r.descriptors;
    })
  ]

-- ===== src/Contract/Package.antt =====
-- Capabilities, methods, events and packages of host-contract/src/contract.rs.
use pingling.Prelude.{
  String, List, [], ◌∷◌, Option, none, Bool, true, false, ok, ◌>>◌, reject_if, if_some, for_each,
}
use pingling.Prelude.Int.{ℤ}
use pingling.Prelude.Text.{format, trim_is_empty}
use pingling.Contract.Failure.{HostResult, HostFailure, invalid_input, each_once}
use pingling.Contract.Token.{validate_token}
use pingling.Contract.Slot.{SlotBinding}
use pingling.Contract.Wit.{ComponentDescriptor, validate_component}

-- What the code uses of `serde_json::Value`: the constructors behind `json!`.
pub record Json (V : Type 0) : Type 0 where
  pub null : V
  pub bool : Bool → V
  pub string : String → V
  pub object : List (String × V) → V

unfoldable pub default_open_schema : {V : Type 0} ⦃j : Json V⦄ → V
default_open_schema ⦃j⦄ =
    j.object (("type", j.string "object") ∷ ("additionalProperties", j.bool true) ∷ [])

pub data HostCapabilityKind : Type 0 where
  host_function permission http_host need runtime_capability : HostCapabilityKind

abbrev pub kind_eq : HostCapabilityKind → HostCapabilityKind → Bool
kind_eq host_function host_function = true
kind_eq permission permission = true
kind_eq http_host http_host = true
kind_eq need need = true
kind_eq runtime_capability runtime_capability = true
kind_eq _ _ = false

pub record HostCapabilityDescriptor : Type 0 where
  pub kind : HostCapabilityKind
  pub name : String

unfoldable pub new_capability : HostCapabilityKind → String → HostResult HostCapabilityDescriptor
new_capability kind name =
    validate_token "capability" name >> ok (record { kind = kind; name = name })

pub record CompatibilityRange : Type 0 where
  pub protocol : Option String
  pub min_host_version : Option String
  pub max_host_version : Option String

unfoldable pub validate_range : CompatibilityRange → HostResult (Unit {0})
validate_range c =
    if_some c.protocol (λ t. validate_token "protocol" t)
    >> if_some c.min_host_version (λ t. validate_token "minimum host version" t)
    >> if_some c.max_host_version (λ t. validate_token "maximum host version" t)

pub record MethodErrorDescriptor : Type 0 where
  pub code : ℤ
  pub message : String

unfoldable pub validate_error : MethodErrorDescriptor → HostResult (Unit {0})
validate_error e =
    reject_if (trim_is_empty e.message) (invalid_input "method error message must not be empty")

pub record MethodDescriptor (V : Type 0) : Type 0 where
  pub name : String
  pub summary : Option String
  pub params_schema : V
  pub result_schema : V
  pub errors : List MethodErrorDescriptor
  pub stability : Option String

pub record EventDescriptor (V : Type 0) : Type 0 where
  pub name : String
  pub summary : Option String
  pub payload_schema : V
  pub subscription : Option String
  pub stability : Option String

pub record IpcPackageDescriptor (V : Type 0) : Type 0 where
  pub id : String
  pub version : Option String
  pub domain : Option String
  pub compatibility : Option CompatibilityRange
  pub methods : List (MethodDescriptor V)
  pub events : List (EventDescriptor V)
  pub slots : List SlotBinding
  pub required_capabilities : List HostCapabilityDescriptor
  pub component : Option ComponentDescriptor

unfoldable pub declared_twice : String → String → String → HostFailure
declared_twice id item name =
    invalid_input
      (format ("package " ∷ id ∷ " declares " ∷ item ∷ " " ∷ name ∷ " more than once" ∷ []))

module _ {V : Type 0} where
  abbrev pub bare_method : String → V → MethodDescriptor V
  bare_method name schema = record {
    name = name;
    summary = none;
    params_schema = schema;
    result_schema = schema;
    errors = [];
    stability = none;
  }

  abbrev pub bare_package : String → IpcPackageDescriptor V
  bare_package id = record {
    id = id;
    version = none;
    domain = none;
    compatibility = none;
    methods = [];
    events = [];
    slots = [];
    required_capabilities = [];
    component = none;
  }

  unfoldable pub new_method : ⦃j : Json V⦄ → String → HostResult (MethodDescriptor V)
  new_method name = validate_token "method" name >> ok (bare_method name default_open_schema)

  unfoldable pub opaque_method : ⦃j : Json V⦄ → String → HostResult (MethodDescriptor V)
  opaque_method name = new_method name

  unfoldable pub validate_method : MethodDescriptor V → HostResult (Unit {0})
  validate_method m = validate_token "method" m.name >> for_each m.errors validate_error

  unfoldable pub new_event : ⦃j : Json V⦄ → String → HostResult (EventDescriptor V)
  new_event name =
      validate_token "event" name
      >> ok (record {
        name = name;
        summary = none;
        payload_schema = default_open_schema;
        subscription = none;
        stability = none;
      })

  unfoldable pub validate_event : EventDescriptor V → HostResult (Unit {0})
  validate_event e = validate_token "event" e.name

  unfoldable pub new_package : String → HostResult (IpcPackageDescriptor V)
  new_package id = validate_token "package id" id >> ok (bare_package id)

  unfoldable pub validate_package : IpcPackageDescriptor V → HostResult (Unit {0})
  validate_package p =
      validate_token "package id" p.id
      >> if_some p.domain (λ t. validate_token "package domain" t)
      >> if_some p.version (λ t. validate_token "package version" t)
      >> if_some p.compatibility validate_range
      >> each_once (λ m. m.name) validate_method (λ m. declared_twice p.id "method" m.name) []
          p.methods
      >> each_once (λ e. e.name) validate_event (λ e. declared_twice p.id "event" e.name) []
          p.events
      >> for_each p.required_capabilities (λ c. validate_token "capability" c.name)
      >> if_some p.component validate_component

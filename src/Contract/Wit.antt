-- ===== src/Contract/Wit.antt =====
-- The WIT component descriptors of host-contract/src/contract.rs.
pub mod Names
use pingling.Prelude.{
  String, List, [], ◌∷◌, Option, none, some, Bool, true, false, ok, err, ◌>>◌, ◌||◌, ◌&&◌, not,
  reject_if, if_some, is_empty, str_eq, if◌then◌else◌,
}
use pingling.Prelude.Text.{format}
use pingling.Contract.Failure.{HostResult, HostFailure, invalid_input, each_once}
use Names.{
  validate_wit_identifier, validate_wit_type, validate_wit_package, validate_wit_import_path,
}

pub record WitFieldDescriptor : Type 0 where
  pub name : String
  pub ty : String

unfoldable pub validate_field : WitFieldDescriptor → HostResult (Unit {0})
validate_field f =
    validate_wit_identifier "WIT field" f.name >> validate_wit_type "WIT field type" f.ty

pub record WitResultDescriptor : Type 0 where
  pub ok_type : Option String
  pub err_type : Option String

abbrev is_none : Option String → Bool
is_none none = true
is_none (some s) = false

unfoldable pub validate_result : WitResultDescriptor → HostResult (Unit {0})
validate_result r =
    reject_if (is_none r.ok_type && is_none r.err_type)
      (invalid_input "WIT result must include ok or err type")
    >> if_some r.ok_type (λ t. validate_wit_type "WIT result ok type" t)
    >> if_some r.err_type (λ t. validate_wit_type "WIT result err type" t)

pub record ComponentFunctionDescriptor : Type 0 where
  pub name : String
  pub params : List WitFieldDescriptor
  pub result : Option WitResultDescriptor

abbrev twice : String → String → String → String → HostFailure
twice owner owner_name item item_name = invalid_input (
    format
      (owner ∷ " " ∷ owner_name ∷ " declares " ∷ item ∷ " " ∷ item_name ∷ " more than once" ∷ []))

unfoldable pub validate_function : ComponentFunctionDescriptor → HostResult (Unit {0})
validate_function f =
    validate_wit_identifier "WIT function" f.name
    >> each_once (λ p. p.name) validate_field (λ p. twice "WIT function" f.name "param" p.name) []
        f.params
    >> if_some f.result validate_result

pub record ComponentRecordDescriptor : Type 0 where
  pub name : String
  pub fields : List WitFieldDescriptor

unfoldable pub validate_record : ComponentRecordDescriptor → HostResult (Unit {0})
validate_record r =
    validate_wit_identifier "WIT record" r.name
    >> each_once (λ f. f.name) validate_field (λ f. twice "WIT record" r.name "field" f.name) []
        r.fields

pub record ComponentInterfaceDescriptor : Type 0 where
  pub name : String
  pub external : Option String
  pub records : List ComponentRecordDescriptor
  pub functions : List ComponentFunctionDescriptor

unfoldable pub validate_interface : ComponentInterfaceDescriptor → HostResult (Unit {0})
validate_interface i =
    validate_wit_identifier "WIT interface" i.name
    >> if_some i.external (λ external.
      validate_wit_import_path "WIT external import" external
      >> reject_if (not (is_empty i.records) || not (is_empty i.functions)) (
          invalid_input (
            format (
              "WIT interface " ∷ i.name
              ∷ " cannot declare local records or functions when external import " ∷ external
              ∷ " is set" ∷ []))))
    >> each_once (λ r. r.name) validate_record (λ r. twice "WIT interface" i.name "record" r.name)
        [] i.records
    >> each_once (λ f. f.name) validate_function
        (λ f. twice "WIT interface" i.name "function" f.name) [] i.functions

pub record ComponentDescriptor : Type 0 where
  pub wit_package : String
  pub world : String
  pub imports : List ComponentInterfaceDescriptor
  pub exports : List ComponentInterfaceDescriptor

-- One round of the loop of `validate_component_interfaces`, before the insertion.
unfoldable pub validate_component_interface :
    String → ComponentInterfaceDescriptor → HostResult (Unit {0})
validate_component_interface kind i =
    validate_interface i
    >> (if str_eq kind "export"
        then if_some i.external (λ external. err (
            invalid_input (
              format (
                "WIT export interface " ∷ i.name ∷ " cannot use external import " ∷ external
                ∷ []))))
        else ok tt)

unfoldable pub validate_component_interfaces :
    String → List ComponentInterfaceDescriptor → HostResult (Unit {0})
validate_component_interfaces kind interfaces =
    each_once (λ i. i.name) (validate_component_interface kind)
      (λ i.
        invalid_input
          (format ("WIT " ∷ kind ∷ " interface " ∷ i.name ∷ " is declared more than once" ∷ [])))
      [] interfaces

unfoldable pub validate_component : ComponentDescriptor → HostResult (Unit {0})
validate_component c =
    validate_wit_package c.wit_package
    >> validate_wit_identifier "WIT world" c.world
    >> validate_component_interfaces "import" c.imports
    >> validate_component_interfaces "export" c.exports

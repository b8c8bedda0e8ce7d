-- ===== src/Core/Adapter.antt =====
-- Adapter manifests: crates/core/src/adapter_protocol.rs.
--
-- `std::path` is the parameter `Paths`: the components of a path, and whether it is absolute.
pub mod Inside
use pingling.Prelude.{
  ℕ, String, List, [], ◌∷◌, Bool, true, false, not, all, Result, ok, err, ◌==◌, ◌||◌, if◌then◌else◌,
  ◌>>◌, reject_if,
}
use pingling.Prelude.Int.{ℤ}
use pingling.Prelude.Text.{format, trim_is_empty}
use pingling.Domain.Error.{VpnError, invalid_configuration}

pub data Component : Type 0 where
  prefix root_dir cur_dir parent_dir : Component
  normal : String → Component

pub record Paths : Type 0 where
  pub components : String → List Component
  pub is_absolute : String → Bool
  pub u32_text : ℕ → String

abbrev pub core_abi_version : ℕ
core_abi_version = 1

pub record AdapterManifest : Type 0 where
  pub schema : ℕ
  pub abi : ℕ
  pub core_type : String
  pub engine : String
  pub version : String
  pub display_name : String
  pub library : String
  pub priority : ℤ
  pub supported_protocols : List String

-- `matches!(component, Component::Normal(_) | Component::CurDir)`
unfoldable pub stays_inside : Component → Bool
stays_inside prefix = false
stays_inside root_dir = false
stays_inside cur_dir = true
stays_inside parent_dir = false
stays_inside (normal name) = true

unfoldable pub validate_library_path : Paths → String → String → Result (Unit {0}) VpnError
validate_library_path paths library path =
    reject_if (paths.is_absolute library || not (all stays_inside (paths.components library)))
      (invalid_configuration (format (path ∷ " uses unsafe adapter library path " ∷ library ∷ [])))

unfoldable pub validate_adapter_manifest :
    Paths → AdapterManifest → String → Result (Unit {0}) VpnError
validate_adapter_manifest paths manifest path =
    reject_if (not (manifest.schema == 1)) (
      invalid_configuration
        (format (path ∷ " uses unsupported schema " ∷ paths.u32_text manifest.schema ∷ [])))
    >> reject_if (not (manifest.abi == core_abi_version)) (
        invalid_configuration
          (format (path ∷ " requires unsupported ABI " ∷ paths.u32_text manifest.abi ∷ [])))
    >> reject_if
        (trim_is_empty manifest.core_type
          || trim_is_empty manifest.engine
          || trim_is_empty manifest.version
          || trim_is_empty manifest.library)
        (invalid_configuration
          (format (path ∷ " is missing required adapter identity fields" ∷ [])))
    >> validate_library_path paths manifest.library path

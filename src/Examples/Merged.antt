-- ===== src/Examples/Merged.antt =====
-- A manifest whose host pattern has no merged contract.
use pingling.Prelude.{String, ◌≡◌, ◌≢◌, refl, [], ◌∷◌, ok, err, some, inl}
use pingling.Prelude.Text.{chars_all, strip_suffix}
use pingling.Contract.Failure.{HostFailure, HostResult}
use pingling.Contract.Token.{validate_token, validate_method_pattern, validate_host_pattern}
use pingling.Contract.Package.{IpcPackageDescriptor}
use pingling.Contract.Manifest.{PluginManifest, validate_manifest, normalized_package, check_slot}
use pingling.Contract.Manifest.Normalized.{normalized_package_total}
use pingling.Contract.Registry.{PluginRegistry, merged_contract}
use pingling.Contract.Registry.Hosts.{merged_contract-host}
use pingling.Examples.Samples.{text_json, helper}

abbrev any_host : String
any_host = "*.example.test"

abbrev browser : PluginManifest String
browser = record helper { allowed_hosts = any_host ∷ [] }

abbrev with_browser : PluginRegistry String
with_browser = record { plugins = ("c.helper", browser) ∷ [] }

unfoldable try_validate : PluginManifest String → HostResult (Unit {0})
unfolding validate_manifest validate_token validate_method_pattern validate_host_pattern check_slot
    strip_suffix chars_all
try_validate m = validate_manifest m

browser_valid : validate_manifest browser ≡ ok tt
unfolding try_validate
browser_valid = refl

any_host_no_token : validate_token "capability" any_host ≢ ok tt
unfolding validate_token chars_all
any_host_no_token h = cc

normalized_package_total_example :
    (p : IpcPackageDescriptor String) × (normalized_package browser ≡ some p)
normalized_package_total_example = normalized_package_total browser browser_valid

merged_contract-host_example : (e : HostFailure) × (merged_contract with_browser ≡ err e)
merged_contract-host_example =
    merged_contract-host browser any_host with_browser (inl refl) browser_valid (inl refl)
      any_host_no_token

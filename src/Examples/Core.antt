-- ===== src/Examples/Core.antt =====
-- The registry of cores with a small file system; cores are numbers.
use pingling.Prelude.{
  ℕ, String, ◌≡◌, refl, List, [], ◌∷◌, some, none, ok, true, false, str_eq, if◌then◌else◌,
}
use pingling.Prelude.Int.{pos}
use pingling.Prelude.Text.{trim_is_empty, chars_all}
use pingling.Core.Adapter.{
  Paths, AdapterManifest, normal, parent_dir, stays_inside, validate_library_path,
  validate_adapter_manifest,
}
use pingling.Core.Adapter.Inside.{Accepted, validate_adapter_manifest-Accepted}
use pingling.Prelude.BTreeMap.{get, insert}
use pingling.Core.Registry.{
  CoreDescriptor, mocked, FileSystem, CoreRegistry, new_registry, register, discover, switch,
  set_binary_path, discover_system_cores, insert_found, active_core,
}
use pingling.Core.Registry.Active.{IsValid}
use pingling.Core.Registry.Commands.{
  Command, do_register, do_discover, do_switch, do_set_binary_path, run, run_new-IsValid,
}

abbrev files : FileSystem
files = record { which = λ name. some "/usr/bin/core"; exists = λ path. true }

abbrev mock : String → CoreDescriptor
mock core_type = record {
  core_type = core_type;
  display_name = "Mock";
  source = mocked;
  binary_path = none;
  available = true;
}

abbrev mocks : CoreRegistry ℕ
mocks = record {
  cores = ("mock", 1) ∷ ("mock2", 2) ∷ [];
  descriptors = ("mock", mock "mock") ∷ ("mock2", mock "mock2") ∷ [];
  active = some "mock";
}

switch-mocks : switch mocks "mock2" ≡ ok (record mocks { active = some "mock2" })
unfolding switch get
switch-mocks = refl

abbrev session : List (Command ℕ)
session =
    do_discover files
    ∷ do_register (mock "mock") 1
    ∷ do_switch "sing-box"
    ∷ do_set_binary_path files "xray" "/opt/xray"
    ∷ do_register (mock "mock2") 2
    ∷ do_switch "mock2"
    ∷ []

session_active : active_core (run new_registry session) ≡ some 2
unfolding run active_core new_registry register discover switch discover_system_cores insert_found
    get insert set_binary_path
session_active = refl

run_new-IsValid_example : IsValid (run new_registry session)
run_new-IsValid_example = run_new-IsValid session

abbrev plain_paths : Paths
plain_paths = record {
  components = λ path.
      if str_eq path "lib/core.so" then normal "lib" ∷ normal "core.so" ∷ [] else parent_dir ∷ [];
  is_absolute = λ path. false;
  u32_text = λ n. "2";
}

abbrev adapter : AdapterManifest
adapter = record {
  schema = 1;
  abi = 1;
  core_type = "test@1.0";
  engine = "test";
  version = "1.0.0";
  display_name = "Test";
  library = "lib/core.so";
  priority = pos 100;
  supported_protocols = "vless" ∷ [];
}

adapter-valid : validate_adapter_manifest plain_paths adapter "manifest.json" ≡ ok tt
unfolding validate_adapter_manifest validate_library_path stays_inside trim_is_empty chars_all
adapter-valid = refl

validate_adapter_manifest-Accepted_example : Accepted plain_paths adapter ("test" ∷ "adapters" ∷ [])
validate_adapter_manifest-Accepted_example =
    validate_adapter_manifest-Accepted plain_paths adapter "manifest.json"
      ("test" ∷ "adapters" ∷ []) adapter-valid

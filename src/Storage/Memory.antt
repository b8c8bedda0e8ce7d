-- ===== src/Storage/Memory.antt =====
-- `MemorySettingsStorage` of crates/shared/storage/src/memory.rs. No operation of it fails.
pub mod View
use pingling.Prelude.{ℕ, String, List, [], ◌∷◌, Option, Bool, Result, ok, length, is_empty}
use pingling.Prelude.BTreeMap as BTreeMap
use pingling.Prelude.BTreeMap.{BTreeMap}
use pingling.Domain.Error.{VpnError}

pub record MemorySettingsStorage : Type 0 where
  pub entries : BTreeMap String

unfoldable pub new_storage : MemorySettingsStorage
new_storage = record { entries = [] }

-- The loop of `with_entries`.
unfoldable pub with_entries_from :
    MemorySettingsStorage → List (String × String) → MemorySettingsStorage
with_entries_from storage [] = storage
with_entries_from storage ((k, v) ∷ more) =
    with_entries_from (record { entries = BTreeMap.insert k v storage.entries }) more

unfoldable pub with_entries : List (String × String) → MemorySettingsStorage
with_entries entries = with_entries_from new_storage entries

unfoldable pub get_string : MemorySettingsStorage → String → Result (Option String) VpnError
get_string self key = ok (BTreeMap.get self.entries key)

unfoldable pub set_string :
    MemorySettingsStorage → String → String → Result (Unit {0}) VpnError × MemorySettingsStorage
set_string self key value = (ok tt, record { entries = BTreeMap.insert key value self.entries })

unfoldable pub remove :
    MemorySettingsStorage → String → Result (Unit {0}) VpnError × MemorySettingsStorage
remove self key = (ok tt, record { entries = BTreeMap.remove key self.entries })

unfoldable pub has : MemorySettingsStorage → String → Result Bool VpnError
has self key = ok (BTreeMap.contains_key self.entries key)

unfoldable pub keys : MemorySettingsStorage → Result (List String) VpnError
keys self = ok (BTreeMap.keys self.entries)

unfoldable pub clear : MemorySettingsStorage → Result (Unit {0}) VpnError × MemorySettingsStorage
clear self = (ok tt, record { entries = [] })

unfoldable pub len : MemorySettingsStorage → Result ℕ VpnError
len self = ok (length self.entries)

unfoldable pub storage_is_empty : MemorySettingsStorage → Result Bool VpnError
storage_is_empty self = ok (is_empty self.entries)

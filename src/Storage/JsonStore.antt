-- ===== src/Storage/JsonStore.antt =====
-- `JsonFileSettingsStorage` of crates/shared/storage/src/json_store.rs.
--
-- `std::fs` and `serde_json` are parameters: `Fs` acts on a disk of a type `D`, each action with its
-- own outcome, and `Codec` writes and reads the map.
pub mod Persist
pub mod Changes
pub mod Reopen
use pingling.Prelude.{
  ℕ, String, List, [], ◌∷◌, Option, none, some, Bool, Result, ok, err, map_err, length, is_empty,
  if◌then◌else◌, false, true, ◌>>=◌,
}
use pingling.Prelude.Text.{format}
use pingling.Prelude.BTreeMap as BTreeMap
use pingling.Prelude.BTreeMap.{BTreeMap}
use pingling.Domain.Error.{VpnError, storage_error}

-- The text of an error stands for its `Display`.
pub record Fs (D : Type 0) : Type 0 where
  pub create_dir_all : String → D → Result (Unit {0}) String × D
  pub exists : String → D → Bool
  pub read_to_string : String → D → Result String String
  pub create : String → D → Result (Unit {0}) String × D
  pub write_all : String → String → D → Result (Unit {0}) String × D
  pub sync_all : String → D → Result (Unit {0}) String × D
  pub rename : String → String → D → Result (Unit {0}) String × D
  pub parent : String → Option String
  pub with_extension : String → String → String

pub record Codec : Type 0 where
  pub to_string_pretty : BTreeMap String → Result String String
  pub from_str : String → Result (BTreeMap String) String

pub record JsonFileSettingsStorage : Type 0 where
  pub path : String
  pub entries : BTreeMap String

-- `action(..).map_err(..)?`, and what comes next.
unfoldable pub and_next :
    {A D : Type 0}
    → Result (Unit {0}) String × D
    → (String → VpnError)
    → (D → Result A VpnError × D)
    → Result A VpnError × D
and_next (ok u, disk) wrap next = next disk
and_next (err e, disk) wrap next = (err (wrap e), disk)

abbrev pub failed : String → String → String → VpnError
failed what path e = storage_error (format (what ∷ path ∷ ": " ∷ e ∷ []))

module _ {D : Type 0} (fs : Fs D) (codec : Codec) where
  -- `if let Some(parent) = path.parent() { fs::create_dir_all(parent)?; }`, and what comes next.
  unfoldable pub create_parent :
      {A : Type 0} → String → D → (D → Result A VpnError × D) → Result A VpnError × D
  create_parent path disk next = elim (fs.parent path) [
    | none ↦ next disk
    | some parent ↦
        and_next (fs.create_dir_all parent disk) (failed "create settings dir " parent) next
  ]

  -- The settings at a path: what the file holds, or nothing.
  unfoldable pub load : String → D → Result (BTreeMap String) VpnError
  load path disk =
      if fs.exists path disk
      then elim (map_err (failed "read settings " path) (fs.read_to_string path disk)) [
        | err e ↦ err e
        | ok text ↦ map_err (failed "parse settings " path) (codec.from_str text)
      ]
      else ok []

  unfoldable pub with_path : String → D → Result JsonFileSettingsStorage VpnError × D
  with_path path disk = create_parent path disk λ d1. (
    elim (load path d1) [
      | err e ↦ err e
      | ok entries ↦ ok (record { path = path; entries = entries })
    ],
    d1,
  )

  -- From the creation of the temporary file on.
  unfoldable pub write_and_rename : JsonFileSettingsStorage → D → Result (Unit {0}) VpnError × D
  write_and_rename self disk =
      let tmp = fs.with_extension self.path "json.tmp" in
      and_next (fs.create tmp disk) (failed "create settings tmp " tmp) λ d1.
        elim (codec.to_string_pretty self.entries) [
          | err e ↦ (err (storage_error (format ("encode settings: " ∷ e ∷ []))), d1)
          | ok json ↦ and_next (fs.write_all tmp json d1) (failed "write settings tmp" "") λ d2.
              and_next (fs.sync_all tmp d2) (failed "write settings tmp" "") λ d3.
                and_next (fs.rename tmp self.path d3) (failed "rename settings " self.path)
                  λ d4. (ok tt, d4)
        ]

  unfoldable pub persist : JsonFileSettingsStorage → D → Result (Unit {0}) VpnError × D
  persist self disk = create_parent self.path disk λ d1. write_and_rename self d1

  unfoldable pub set_string :
      JsonFileSettingsStorage
      → String
      → String
      → D
      → Result (Unit {0}) VpnError × JsonFileSettingsStorage × D
  set_string self key value disk =
      let self' = record self { entries = BTreeMap.insert key value self.entries } in
      let (result, disk') = persist self' disk in (result, self', disk')

  unfoldable pub remove :
      JsonFileSettingsStorage
      → String
      → D
      → Result (Unit {0}) VpnError × JsonFileSettingsStorage × D
  remove self key disk =
      let self' = record self { entries = BTreeMap.remove key self.entries } in
      let (result, disk') = persist self' disk in (result, self', disk')

  unfoldable pub clear :
      JsonFileSettingsStorage → D → Result (Unit {0}) VpnError × JsonFileSettingsStorage × D
  clear self disk =
      let self' = record self { entries = [] } in
      let (result, disk') = persist self' disk in (result, self', disk')

unfoldable pub get_string : JsonFileSettingsStorage → String → Result (Option String) VpnError
get_string self key = ok (BTreeMap.get self.entries key)

-- The trait's default.
unfoldable pub has : JsonFileSettingsStorage → String → Result Bool VpnError
has self key = get_string self key >>= λ found. ok (elim found [ none ↦ false | some value ↦ true ])

unfoldable pub keys : JsonFileSettingsStorage → Result (List String) VpnError
keys self = ok (BTreeMap.keys self.entries)

unfoldable pub len : JsonFileSettingsStorage → Result ℕ VpnError
len self = ok (length self.entries)

unfoldable pub storage_is_empty : JsonFileSettingsStorage → Result Bool VpnError
storage_is_empty self = ok (is_empty self.entries)

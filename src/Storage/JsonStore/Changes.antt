-- ===== src/Storage/JsonStore/Changes.antt =====
-- Any sequence of changes to a store, on any disk: what is in memory, what is in the file.
use pingling.Prelude.{String, ◌≡◌, refl, List, [], ◌∷◌, Option, none, some, Result, ok, err}
use pingling.Prelude.BTreeMap as BTreeMap
use pingling.Prelude.BTreeMap.{BTreeMap}
use pingling.Domain.Error.{VpnError}
use pingling.Storage.JsonStore.{
  Fs, Codec, JsonFileSettingsStorage, persist, set_string, remove, clear,
}
use pingling.Storage.JsonStore.Persist.{Laws, Written, stored, kept, persist-Written}

pub data Change : Type 0 where
  do_set : String → String → Change
  do_remove : String → Change
  do_clear : Change

module _ {D : Type 0} (fs : Fs D) (codec : Codec) where
  abbrev pub change :
      Change
      → JsonFileSettingsStorage
      → D
      → Result (Unit {0}) VpnError × JsonFileSettingsStorage × D
  change (do_set k v) self d = set_string fs codec self k v d
  change (do_remove k) self d = remove fs codec self k d
  change do_clear self d = clear fs codec self d

  -- A store, its disk, and the map that the last successful call left, or nothing.
  pub record Run : Type 0 where
    pub store : JsonFileSettingsStorage
    pub disk : D
    pub saved : Option (BTreeMap String)

  abbrev pub saved_by :
      Result (Unit {0}) VpnError
      → BTreeMap String
      → Option (BTreeMap String)
      → Option (BTreeMap String)
  saved_by (ok u) entries saved = some entries
  saved_by (err e) entries saved = saved

  abbrev pub next_run : Run → Result (Unit {0}) VpnError × JsonFileSettingsStorage × D → Run
  next_run r (result, store, disk) = record {
    store = store;
    disk = disk;
    saved = saved_by result store.entries r.saved;
  }

  abbrev pub run_changes : Run → List Change → Run
  run_changes r [] = r
  run_changes r (c ∷ cs) = run_changes (next_run r (change c r.store r.disk)) cs

  -- The changes alone, on the map.
  abbrev pub change_map : BTreeMap String → List Change → BTreeMap String
  change_map m [] = m
  change_map m (do_set k v ∷ cs) = change_map (BTreeMap.insert k v m) cs
  change_map m (do_remove k ∷ cs) = change_map (BTreeMap.remove k m) cs
  change_map m (do_clear ∷ cs) = change_map [] cs

  -- A file with this content holds the saved map, encoded; or what was there before, when
  -- nothing was saved.
  pub data FileIs (content before : Option String) : Option (BTreeMap String) → Type 0 where
    unchanged : content ≡ before → FileIs content before none
    encoded :
        (m : BTreeMap String) (json : String)
        → codec.to_string_pretty m ≡ ok json
        → content ≡ some json
        → FileIs content before (some m)

  Written-FileIs :
      (self : JsonFileSettingsStorage) (laws : Laws fs self.path) (old before : Option String)
      (saved : Option (BTreeMap String)) (step : Result (Unit {0}) VpnError × D)
      → Written fs codec self laws old step
      → FileIs old before saved
      → FileIs (laws.content step.1 self.path) before (saved_by step.0 self.entries saved)
  Written-FileIs self laws old before saved step (stored json d e c) f =
      encoded self.entries json e c
  Written-FileIs self laws old before saved step (kept m d c) f = rw c f

  persist-FileIs :
      (self : JsonFileSettingsStorage) (laws : Laws fs self.path) (d : D) (before : Option String)
      (saved : Option (BTreeMap String))
      → FileIs (laws.content d self.path) before saved
      → FileIs
          (laws.content (persist fs codec self d).1 self.path)
          before
          (saved_by (persist fs codec self d).0 self.entries saved)
  persist-FileIs self laws d before saved f =
      Written-FileIs self laws (laws.content d self.path) before saved (persist fs codec self d)
        (persist-Written fs codec self laws d) f

  -- Whatever is changed, and whichever actions on the disk fail: in memory every change is made,
  -- and the settings file holds all of the map as the last successful call left it, or what it
  -- held at first while none succeeded.
  pub run_changes-FileIs :
      (cs : List Change) (r : Run) (laws : Laws fs r.store.path) (before : Option String)
      → FileIs (laws.content r.disk r.store.path) before r.saved
      → FileIs (laws.content (run_changes r cs).disk r.store.path) before (run_changes r cs).saved
        × ((run_changes r cs).store.entries ≡ change_map r.store.entries cs)
  unfolding set_string remove clear
  run_changes-FileIs [] r laws before f = (f, refl)
  run_changes-FileIs (do_set k v ∷ cs) r laws before f =
      run_changes-FileIs cs (next_run r (change (do_set k v) r.store r.disk)) laws before (
        persist-FileIs (record r.store { entries = BTreeMap.insert k v r.store.entries }) laws
          r.disk before r.saved f)
  run_changes-FileIs (do_remove k ∷ cs) r laws before f =
      run_changes-FileIs cs (next_run r (change (do_remove k) r.store r.disk)) laws before (
        persist-FileIs (record r.store { entries = BTreeMap.remove k r.store.entries }) laws r.disk
          before r.saved f)
  run_changes-FileIs (do_clear ∷ cs) r laws before f =
      run_changes-FileIs cs (next_run r (change do_clear r.store r.disk)) laws before
        (persist-FileIs (record r.store { entries = [] }) laws r.disk before r.saved f)

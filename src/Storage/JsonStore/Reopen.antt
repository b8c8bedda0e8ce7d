-- ===== src/Storage/JsonStore/Reopen.antt =====
-- A store that is opened again.
use pingling.Prelude.{
  String, ◌≡◌, refl, ap, subst, List, ◌∙◌, inl, inr, Option, none, some, Result, ok, err,
  Option-cases, true,
}
use pingling.Prelude.BTreeMap.{BTreeMap}
use pingling.Domain.Error.{VpnError}
use pingling.Storage.JsonStore.{Fs, Codec, and_next, create_parent, load, with_path}
use pingling.Storage.JsonStore.Persist.{Laws}
use pingling.Storage.JsonStore.Changes.{
  Change, Run, run_changes, FileIs, unchanged, encoded, run_changes-FileIs,
}

module _ {D : Type 0} (fs : Fs D) (codec : Codec) (path : String) (laws : Laws fs path) where
  -- From the disk `d` on, the directory of a path can be made and its file be read.
  pub record Reads (d : D) : Type 0 where
    pub made :
        (parent : String) → fs.parent path ≡ some parent → (fs.create_dir_all parent d).0 ≡ ok tt
    pub found : (e : D) (text : String) → laws.content e path ≡ some text → fs.exists path e ≡ true
    pub read :
        (e : D) (text : String)
        → laws.content e path ≡ some text
        → fs.read_to_string path e ≡ ok text

  load-content :
      (text : String) (d e : D) (m : BTreeMap String)
      → Reads d
      → laws.content e path ≡ some text
      → codec.from_str text ≡ ok m
      → load fs codec path e ≡ ok m
  unfolding load
  load-content text d e m h c g = rw (h.found e text c, load, h.read e text c, g) refl

  and_next_ok :
      {A : Type 0} (step : Result (Unit {0}) String × D) (wrap : String → VpnError)
      (next : D → Result A VpnError × D)
      → step.0 ≡ ok tt
      → and_next step wrap next ≡ next step.1
  unfolding and_next
  and_next_ok (ok tt, d) wrap next h = refl
  and_next_ok (err e, d) wrap next h = cc

  with_path-content :
      (text : String) (d : D) (m : BTreeMap String)
      → Reads d
      → laws.content d path ≡ some text
      → codec.from_str text ≡ ok m
      → (with_path fs codec path d).0 ≡ ok (record { path = path; entries = m })
  unfolding with_path create_parent
  with_path-content text d m h c g = elim (Option-cases (fs.parent path)) [
    | inl e ↦ rw (e, create_parent, load-content text d d m h c g) refl
    | inr (parent, e) ↦
        let same = laws.create_dir_all_content parent d in
        rw (e, create_parent)
          (ap (λ step. step.0) (and_next_ok (fs.create_dir_all parent d) _ _ (h.made parent e))
            ∙ rw (load-content text d (fs.create_dir_all parent d).1 m h (same ∙ c) g) refl)
  ]

  -- A store at the path, and nothing saved yet.
  abbrev pub opened : BTreeMap String → D → Run fs codec
  opened entries d = record {
    store = record { path = path; entries = entries };
    disk = d;
    saved = none;
  }

  -- A codec reads what it writes.
  abbrev pub RoundTrip : Type 0
  RoundTrip =
      (m : BTreeMap String) (json : String)
      → codec.to_string_pretty m ≡ ok json
      → codec.from_str json ≡ ok m

  some_eq : {n m : BTreeMap String} → some n ≡ some m → n ≡ m
  some_eq e = cc

  saved-with_path :
      (d : D) (before : Option String) (saved : Option (BTreeMap String)) (m : BTreeMap String)
      → RoundTrip
      → Reads d
      → saved ≡ some m
      → FileIs fs codec (laws.content d path) before saved
      → (with_path fs codec path d).0 ≡ ok (record { path = path; entries = m })
  saved-with_path d before saved m t h e (unchanged c) = cc
  saved-with_path d before saved m t h e (encoded n json g c) =
      with_path-content json d m h c
        (t m json (subst (λ o. codec.to_string_pretty o ≡ ok json) (some_eq e) g))

  -- After any changes of which at least one was written, a store that is opened at the same path
  -- has the map as the last written change left it. The codec reads what it writes, and the file
  -- can be read.
  pub run_changes-with_path :
      (cs : List Change) (entries : BTreeMap String) (d : D) (m : BTreeMap String)
      → RoundTrip
      → (run_changes fs codec (opened entries d) cs).saved ≡ some m
      → Reads (run_changes fs codec (opened entries d) cs).disk
      → (with_path fs codec path (run_changes fs codec (opened entries d) cs).disk).0
        ≡ ok (record { path = path; entries = m })
  run_changes-with_path cs entries d m t e h =
      saved-with_path (run_changes fs codec (opened entries d) cs).disk (laws.content d path)
        (run_changes fs codec (opened entries d) cs).saved m t h e
        (run_changes-FileIs fs codec cs (opened entries d) laws (laws.content d path)
          (unchanged refl)).0

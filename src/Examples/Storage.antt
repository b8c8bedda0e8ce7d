-- ===== src/Examples/Storage.antt =====
-- A disk that is full after some writes, and a codec for the maps of one key.
use pingling.Prelude.{
  Bool, true, false, ℕ, zero, suc, String, ◌≡◌, refl, List, [], ◌∷◌, Option, none, some, Result, ok,
  err, str_eq, eq_iff, eq_refl, sym, ap, ◌∙◌, arith, if◌then◌else◌,
}
use pingling.Prelude.BTreeMap as BTreeMap
use pingling.Prelude.BTreeMap.{BTreeMap, get-insert, get-remove}
use pingling.Storage.Memory as Memory
use pingling.Storage.Memory.View.{
  Command, do_get, do_has, do_remove, do_set, session, ideal_session, session_new,
}
use pingling.Storage.JsonStore.{
  Fs, Codec, and_next, create_parent, with_path, write_and_rename, persist, set_string, clear,
}
use pingling.Storage.JsonStore.Persist.{Laws}
use pingling.Storage.JsonStore.Changes as Changes
use pingling.Storage.JsonStore.Changes.{
  Change, run_changes, FileIs, unchanged, change_map, run_changes-FileIs,
}
use pingling.Storage.JsonStore.Reopen.{opened, Reads, RoundTrip, run_changes-with_path}

abbrev commands : List Command
commands = do_set "mode" "tun" ∷ do_remove "port" ∷ do_has "mode" ∷ do_get "mode" ∷ []

session_new_example : session Memory.new_storage commands ≡ ideal_session (λ k. none) commands
session_new_example = session_new commands

record Disk : Type 0 where
  files : BTreeMap String
  room : ℕ

-- A write for which there is no room leaves a torn file.
abbrev spend : ℕ → Disk → Disk → Result (Unit {0}) String × Disk
spend zero torn done = (err "no space left", torn)
spend (suc n) torn done = (ok tt, record done { room = n })

abbrev moves : Option String → String → String → Disk → Result (Unit {0}) String × Disk
moves none p q d = (err "not found", d)
moves (some text) p q d =
    spend d.room d (record d { files = BTreeMap.insert q text (BTreeMap.remove p d.files) })

abbrev is_found : Option String → Bool
is_found none = false
is_found (some t) = true

abbrev read_found : Option String → Result String String
read_found none = err "not found"
read_found (some t) = ok t

abbrev small_disk : Fs Disk
small_disk = record {
  create_dir_all = λ dir d. (ok tt, d);
  exists = λ p d. is_found (BTreeMap.get d.files p);
  read_to_string = λ p d. read_found (BTreeMap.get d.files p);
  create = λ p d. spend d.room d (record d { files = BTreeMap.insert p "" d.files });
  write_all = λ p text d.
      spend d.room (record d { files = BTreeMap.insert p "{" d.files })
        (record d { files = BTreeMap.insert p text d.files });
  sync_all = λ p d. (ok tt, d);
  rename = λ p q d. moves (BTreeMap.get d.files p) p q d;
  parent = λ p. some "/etc";
  with_extension = λ p ext. "settings.json.tmp";
}

abbrev encode_mode : String → String → Result String String
encode_mode k v =
    if str_eq k "mode" then if str_eq v "{}" then err "no mode" else ok v else err "no key"

abbrev encode : BTreeMap String → Result String String
encode [] = ok "{}"
encode ((k, v) ∷ []) = encode_mode k v
encode (e ∷ f ∷ m) = err "two keys"

abbrev mode_codec : Codec
mode_codec = record {
  to_string_pretty = encode;
  from_str = λ text. if str_eq text "{}" then ok [] else ok (("mode", text) ∷ []);
}

spend_other :
    (n : ℕ) (torn done : Disk) (q : String) (c : Option String)
    → BTreeMap.get torn.files q ≡ c
    → BTreeMap.get done.files q ≡ c
    → BTreeMap.get (spend n torn done).1.files q ≡ c
spend_other zero torn done q c h k = h
spend_other (suc n) torn done q c h k = k

spend_ok :
    (n : ℕ) (torn done e : Disk) (q : String)
    → spend n torn done ≡ (ok tt, e)
    → BTreeMap.get e.files q ≡ BTreeMap.get done.files q
spend_ok zero torn done e q h = cc
spend_ok (suc n) torn done e q h = ap (λ s. BTreeMap.get s.1.files q) (sym h)

moves_ok :
    (o : Option String) (p q : String) (d e : Disk)
    → moves o p q d ≡ (ok tt, e)
    → BTreeMap.get e.files q ≡ o
moves_ok none p q d e h = cc
moves_ok (some text) p q d e h =
    spend_ok d.room d _ e q h
    ∙ get-insert q q text (BTreeMap.remove p d.files)
    ∙ rw (eq_refl q) refl

spend_err :
    (n : ℕ) (torn done : Disk) (q m : String)
    → (spend n torn done).0 ≡ err m
    → BTreeMap.get (spend n torn done).1.files q ≡ BTreeMap.get torn.files q
spend_err zero torn done q m h = refl
spend_err (suc n) torn done q m h = cc

moves_err :
    (o : Option String) (p q m : String) (d : Disk)
    → (moves o p q d).0 ≡ err m
    → BTreeMap.get (moves o p q d).1.files q ≡ BTreeMap.get d.files q
moves_err none p q m d h = refl
moves_err (some text) p q m d h = spend_err d.room d _ q m h

small_disk-Laws : Laws small_disk "settings.json"
small_disk-Laws = record {
  content = λ d p. BTreeMap.get d.files p;
  create_dir_all_content = λ dir d. refl;
  create_other = λ d.
      spend_other d.room d _ _ _ refl (get-insert "settings.json.tmp" "settings.json" "" d.files);
  create_ok = λ d e h.
      spend_ok d.room d _ e _ h ∙ get-insert "settings.json.tmp" "settings.json.tmp" "" d.files;
  write_all_other = λ text d.
      spend_other d.room _ _ _ _ (get-insert "settings.json.tmp" "settings.json" "{" d.files)
        (get-insert "settings.json.tmp" "settings.json" text d.files);
  write_all_ok = λ text d e c h.
      spend_ok d.room _ _ e _ h ∙ get-insert "settings.json.tmp" "settings.json.tmp" text d.files;
  sync_all_content = λ q d. refl;
  rename_ok = λ d e h.
      moves_ok (BTreeMap.get d.files "settings.json.tmp") "settings.json.tmp" "settings.json" d e h;
  rename_err = λ m d h.
      moves_err (BTreeMap.get d.files "settings.json.tmp") "settings.json.tmp" "settings.json" m d
        h;
}

mode_codec-RoundTrip : RoundTrip small_disk mode_codec "settings.json" small_disk-Laws
mode_codec-RoundTrip [] json h = ground (arith, eq_iff json "{}")
mode_codec-RoundTrip ((k, v) ∷ []) json h =
    ground (arith, eq_iff json "{}", eq_iff v "{}", eq_iff k "mode")
mode_codec-RoundTrip (e ∷ f ∷ m) json h = cc

-- Room for one write: the second change stays in memory.
abbrev two_changes : List Change
two_changes = Changes.do_set "mode" "tun" ∷ Changes.do_clear ∷ []

abbrev some_room : Disk
some_room = record { files = []; room = 4 }

abbrev start : Changes.Run small_disk mode_codec
start = opened small_disk mode_codec "settings.json" small_disk-Laws [] some_room

run_changes-FileIs_example :
    FileIs small_disk mode_codec
      (BTreeMap.get
        (run_changes small_disk mode_codec start two_changes).disk.files
        "settings.json")
      none
      (run_changes small_disk mode_codec start two_changes).saved
    × ((run_changes small_disk mode_codec start two_changes).store.entries
        ≡ change_map small_disk mode_codec [] two_changes)
unfolding small_disk-Laws BTreeMap.get
run_changes-FileIs_example =
    run_changes-FileIs small_disk mode_codec two_changes start small_disk-Laws none (unchanged refl)

written : (run_changes small_disk mode_codec start two_changes).saved ≡ some (("mode", "tun") ∷ [])
unfolding set_string clear persist create_parent and_next write_and_rename BTreeMap.insert
    BTreeMap.remove BTreeMap.get
written = refl

readable :
    Reads small_disk mode_codec "settings.json" small_disk-Laws
      (run_changes small_disk mode_codec start two_changes).disk
unfolding small_disk-Laws BTreeMap.get
readable = record {
  made = λ parent h. refl;
  found = λ e text h. ap is_found h;
  read = λ e text h. ap read_found h;
}

run_changes-with_path_example :
    (with_path small_disk mode_codec "settings.json"
      (run_changes small_disk mode_codec start two_changes).disk).0
    ≡ ok (record { path = "settings.json"; entries = ("mode", "tun") ∷ [] })
run_changes-with_path_example =
    run_changes-with_path small_disk mode_codec "settings.json" small_disk-Laws two_changes []
      some_room (("mode", "tun") ∷ []) mode_codec-RoundTrip written readable

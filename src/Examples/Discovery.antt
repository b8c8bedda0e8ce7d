-- ===== src/Examples/Discovery.antt =====
-- A registry directory with the files of three daemons, one of which is gone.
use pingling.Prelude.{
  ℕ, String, List, [], ◌∷◌, ◌≡◌, refl, Option, none, some, ok, err, map, ◌==◌, if◌then◌else◌,
}
use pingling.Prelude.Int.{ℤ, pos, parse_i32, parse_digits, parse_nat}
use pingling.Prelude.Text.{strip_prefix, strip_suffix, trim_end_matches, repeats_from, char_count}
use pingling.Prelude.BTreeMap as BTreeMap
use pingling.Prelude.BTreeMap.{BTreeMap}
use pingling.Ipc.Discovery.{
  Machine, entry_pid, to_json_bytes, new_advertisement, Received, datagram, timed_out, failed,
  beacon, as_bytes, probe_magic,
}
use pingling.Ipc.Discovery.Beacon.{Replies, beacon-Replies}

entry_pid_runs :
    map entry_pid ("812.json" ∷ "latest.json" ∷ "812.txt" ∷ "notes.json" ∷ "7.json.json" ∷ [])
    ≡ some (pos 812) ∷ none ∷ none ∷ none ∷ some (pos 7) ∷ []
unfolding entry_pid parse_i32 parse_digits parse_nat strip_prefix strip_suffix trim_end_matches
    repeats_from char_count
entry_pid_runs = refl

-- Process 7 is there, and no other but this one, which is 9.
abbrev alive_here : ℤ → Option (Option ℤ)
alive_here (pos n) = if n == 7 then none else some (some (pos 3))
alive_here z = some (some (pos 3))

abbrev box : Machine (BTreeMap String)
box = record {
  process_id = 9;
  daemon_log_file = none;
  seconds_since_epoch = some 1_700_000_000;
  u32_text = λ n. "9";
  to_vec = λ ad. ok "{pid: 9}";
  create_dir_all = λ d. d;
  read_dir = λ d. some (map some (BTreeMap.keys d));
  write = λ n text d. (ok tt, BTreeMap.insert n text d);
  remove_file = λ n d. elim (BTreeMap.get d n) [
    | none ↦ (err "not found", d)
    | some text ↦ (ok tt, BTreeMap.remove n d)
  ];
  kill0 = λ pid d. alive_here pid;
}

abbrev three : BTreeMap String
three = ("5.json", "{pid: 5}") ∷ ("7.json", "{pid: 7}") ∷ ("latest.json", "{pid: 7}") ∷ []

-- A probe, noise, and a probe that goes on.
abbrev heard : List (Received ℕ)
heard = datagram (as_bytes probe_magic) 1 ∷ timed_out ∷ datagram (65 ∷ 86 ∷ []) 2 ∷ failed ∷ []

beacon-Replies_example :
    Replies
      (to_json_bytes box (new_advertisement box none none))
      heard
      (beacon box (new_advertisement box none none) heard)
beacon-Replies_example = beacon-Replies box (new_advertisement box none none) heard

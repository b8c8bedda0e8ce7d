-- ===== src/Ipc/Discovery/Pruned.antt =====
-- What pruning leaves in the registry directory.
use pingling.Prelude.{
  String, List, [], ◌∷◌, ◌≡◌, refl, ◌∙◌, Bool, true, false, Option, none, some, ok, str_eq, eq_iff,
  arith, Option-cases, Bool-cases, inl, inr, In, not,
}
use pingling.Prelude.Int.{ℤ, pos, parse_i32}
use pingling.Prelude.Text.{strip_suffix, trim_end_matches, ends_with}
use pingling.Ipc.Discovery.{
  Machine, entry_pid, pid_alive, prune_entry, prune_entries, prune_stale_entries, latest_name,
}

-- What the file system does: `content` is what a file holds. An action on a file touches no other one
-- and no process; a write that succeeds leaves what was written, and a removal that succeeds nothing. A
-- removal leaves no file where there is none.
pub record Laws {D : Type 0} (m : Machine D) (content : D → String → Option String) : Type 0 where
  pub create_dir_all : (d : D) (n : String) → content (m.create_dir_all d) n ≡ content d n
  pub written :
      (n text : String) (d : D)
      → (m.write n text d).0 ≡ ok tt
      → content (m.write n text d).1 n ≡ some text
  pub write_other :
      (n j text : String) (d : D)
      → str_eq n j ≡ false
      → content (m.write n text d).1 j ≡ content d j
  pub listed :
      (d : D) (names : List (Option String)) (n text : String)
      → m.read_dir d ≡ some names
      → content d n ≡ some text
      → In (some n) names
  pub removed :
      (n : String) (d : D) → (m.remove_file n d).0 ≡ ok tt → content (m.remove_file n d).1 n ≡ none
  pub missing : (n : String) (d : D) → content d n ≡ none → content (m.remove_file n d).1 n ≡ none
  pub remove_other :
      (n j : String) (d : D) → str_eq n j ≡ false → content (m.remove_file n d).1 j ≡ content d j
  pub same_processes : (pid : ℤ) (d : D) → m.kill0 pid (m.create_dir_all d) ≡ m.kill0 pid d
  pub remove_processes :
      (pid : ℤ) (n : String) (d : D) → m.kill0 pid (m.remove_file n d).1 ≡ m.kill0 pid d

-- The file is a registration of a process that is not there any more.
abbrev pub stale : {D : Type 0} → Machine D → D → String → Bool
stale m d file_name = elim (entry_pid file_name) [
  | none ↦ false
  | some pid ↦ not (pid_alive m pid d)
]

-- The file is named after a process, by a number and ".json", and `kill` says of the process that there
-- is none: ESRCH is 3.
pub record Gone {D : Type 0} (m : Machine D) (d : D) (file_name : String) : Type 0 where
  pub stem : String
  pub pid : ℤ
  pub is_json : strip_suffix ".json" file_name ≡ some stem
  pub number : parse_i32 (trim_end_matches ".json" file_name) ≡ some pid
  pub no_process : m.kill0 pid d ≡ some (some (pos 3))

kill0-dead :
    {D : Type 0} (m : Machine D) (d : D) (pid : ℤ)
    → pid_alive m pid d ≡ false
    → m.kill0 pid d ≡ some (some (pos 3))
unfolding pid_alive
kill0-dead m d pid h = ground arith

pub stale-Gone :
    {D : Type 0} (m : Machine D) (d : D) (file_name : String)
    → stale m d file_name ≡ true
    → Gone m d file_name
unfolding entry_pid ends_with
stale-Gone m d n old = elim (Option-cases (strip_suffix ".json" n)) [
  | inl e ↦ absurd (ground (arith, e, old))
  | inr (stem, e) ↦ elim (Option-cases (parse_i32 (trim_end_matches ".json" n))) [
    | inl q ↦ absurd (ground (arith, e, q, old))
    | inr (pid, q) ↦ record {
      stem = stem;
      pid = pid;
      is_json = e;
      number = q;
      no_process = kill0-dead m d pid (ground (arith, e, q, old));
    }
  ]
]

pub Gone-stale :
    {D : Type 0} (m : Machine D) (d : D) (file_name : String)
    → str_eq latest_name file_name ≡ false
    → Gone m d file_name
    → stale m d file_name ≡ true
unfolding entry_pid ends_with pid_alive
Gone-stale m d n other g =
    ground
      (arith, g.is_json, g.number, g.no_process, eq_iff n latest_name, eq_iff latest_name n, other)

module _ {D : Type 0} (m : Machine D) (content : D → String → Option String)
    (laws : Laws m content) where
  stale-prune_entry :
      (file_name j : String) (d : D) → stale m (prune_entry m file_name d) j ≡ stale m d j
  unfolding prune_entry pid_alive
  stale-prune_entry file_name j d = elim (Option-cases (entry_pid j)) [
    | inl e ↦ ground (arith, e)
    | inr (pid, e) ↦ ground (arith, e, laws.remove_processes pid file_name d)
  ]

  -- One entry: another one stays, and a stale one goes when it can be removed.
  prune_entry_other :
      (file_name j : String) (d : D)
      → str_eq file_name j ≡ false
      → content (prune_entry m file_name d) j ≡ content d j
  unfolding prune_entry
  prune_entry_other file_name j d e = ground (arith, laws.remove_other file_name j d e)

  prune_entry_live :
      (file_name j : String) (d : D)
      → stale m d j ≡ false
      → content (prune_entry m file_name d) j ≡ content d j
  unfolding prune_entry
  prune_entry_live file_name j d live = elim (Bool-cases (str_eq file_name j)) [
    | inr e ↦ prune_entry_other file_name j d e
    | inl e ↦ rw ((eq_iff file_name j).0 e) (elim (Option-cases (entry_pid j)) [
      | inl h ↦ ground (arith, h)
      | inr (pid, h) ↦ ground (arith, h, live)
    ])
  ]

  remove_file-none :
      (n : String) (d : D)
      → ((j text : String) (c : D) → content c j ≡ some text → (m.remove_file j c).0 ≡ ok tt)
      → content (m.remove_file n d).1 n ≡ none
  remove_file-none n d removes = elim (Option-cases (content d n)) [
    | inl gone ↦ laws.missing n d gone
    | inr (text, there) ↦ laws.removed n d (removes n text d there)
  ]

  prune_entry-stale :
      (n : String) (d : D)
      → ((j text : String) (c : D) → content c j ≡ some text → (m.remove_file j c).0 ≡ ok tt)
      → stale m d n ≡ true
      → content (prune_entry m n d) n ≡ none
  unfolding prune_entry
  prune_entry-stale n d removes old = elim (Option-cases (entry_pid n)) [
    | inl h ↦ ground (arith, h, old)
    | inr (pid, h) ↦ ground (arith, h, old, remove_file-none n d removes)
  ]

  prune_entry-none :
      (file_name n : String) (d : D)
      → ((j text : String) (c : D) → content c j ≡ some text → (m.remove_file j c).0 ≡ ok tt)
      → content d n ≡ none
      → content (prune_entry m file_name d) n ≡ none
  prune_entry-none file_name n d removes gone = elim (Bool-cases (str_eq file_name n)) [
    | inr e ↦ prune_entry_other file_name n d e ∙ gone
    | inl e ↦ rw ((eq_iff file_name n).0 e) (elim (Bool-cases (stale m d n)) [
      | inl h ↦ prune_entry-stale n d removes h
      | inr h ↦ prune_entry_live n n d h ∙ gone
    ])
  ]

  prune_entries_live :
      (names : List (Option String)) (n : String) (d : D)
      → stale m d n ≡ false
      → content (prune_entries m names d) n ≡ content d n
  unfolding prune_entries
  prune_entries_live [] n d live = refl
  prune_entries_live (none ∷ names) n d live = prune_entries_live names n d live
  prune_entries_live (some f ∷ names) n d live =
      prune_entries_live names n (prune_entry m f d) (stale-prune_entry f n d ∙ live)
      ∙ prune_entry_live f n d live

  prune_entries-none :
      (names : List (Option String)) (n : String) (d : D)
      → ((j text : String) (c : D) → content c j ≡ some text → (m.remove_file j c).0 ≡ ok tt)
      → content d n ≡ none
      → content (prune_entries m names d) n ≡ none
  unfolding prune_entries
  prune_entries-none [] n d removes gone = gone
  prune_entries-none (none ∷ names) n d removes gone = prune_entries-none names n d removes gone
  prune_entries-none (some f ∷ names) n d removes gone =
      prune_entries-none names n (prune_entry m f d) removes (prune_entry-none f n d removes gone)

  prune_entries-stale :
      (names : List (Option String)) (n : String) (d : D)
      → ((j text : String) (c : D) → content c j ≡ some text → (m.remove_file j c).0 ≡ ok tt)
      → stale m d n ≡ true
      → In (some n) names
      → content (prune_entries m names d) n ≡ none
  unfolding prune_entries
  prune_entries-stale [] n d removes old i = absurd i
  prune_entries-stale (none ∷ names) n d removes old (inl e) = cc
  prune_entries-stale (none ∷ names) n d removes old (inr i) =
      prune_entries-stale names n d removes old i
  prune_entries-stale (some f ∷ names) n d removes old (inl e) =
      prune_entries-none names n (prune_entry m f d) removes
        (let q : f ≡ n = cc in rw q (prune_entry-stale n d removes old))
  prune_entries-stale (some f ∷ names) n d removes old (inr i) =
      prune_entries-stale names n (prune_entry m f d) removes (stale-prune_entry f n d ∙ old) i

  -- The registry directory as `prune_stale_entries` finds it.
  stale-create : (n : String) (d : D) → stale m (m.create_dir_all d) n ≡ stale m d n
  unfolding pid_alive
  stale-create n d = elim (Option-cases (entry_pid n)) [
    | inl e ↦ ground (arith, e)
    | inr (pid, e) ↦ ground (arith, e, laws.same_processes pid d)
  ]

  pub prune_stale_entries_live :
      (n : String) (d : D) → stale m d n ≡ false → content (prune_stale_entries m d) n ≡ content d n
  unfolding prune_stale_entries
  prune_stale_entries_live n d live = elim (Option-cases (m.read_dir (m.create_dir_all d))) [
    | inl e ↦ rw (e, prune_stale_entries) (laws.create_dir_all d n)
    | inr (names, e) ↦
        rw (e, prune_stale_entries)
          (prune_entries_live names n (m.create_dir_all d) (stale-create n d ∙ live)
            ∙ laws.create_dir_all d n)
  ]

  pub prune_stale_entries-stale :
      (n : String) (d : D) (names : List (Option String))
      → ((j text : String) (c : D) → content c j ≡ some text → (m.remove_file j c).0 ≡ ok tt)
      → m.read_dir (m.create_dir_all d) ≡ some names
      → stale m d n ≡ true
      → content (prune_stale_entries m d) n ≡ none
  unfolding prune_stale_entries
  prune_stale_entries-stale n d names removes e old =
      let d1 = m.create_dir_all d in
      rw (e, prune_stale_entries)
        (elim (Option-cases (content d1 n)) [
          | inl gone ↦ prune_entries-none names n d1 removes gone
          | inr (text, there) ↦
              prune_entries-stale names n d1 removes (stale-create n d ∙ old)
                (laws.listed d1 names n text e there)
        ])

-- ===== src/Ipc/Discovery/Published.antt =====
-- What is in the registry directory after a daemon has published itself.
use pingling.Prelude.{String, ◌≡◌, ◌∙◌, false, Option, str_eq, Result-cases, inl, inr}
use pingling.Ipc.Discovery.{
  Machine, DaemonAdvertisement, prune_stale_entries, publish_registry, registry_file_for_self,
  to_json_bytes, latest_name,
}
use pingling.Ipc.Discovery.Pruned.{Laws, stale, prune_stale_entries_live}

module _ {D : Type 0} (m : Machine D) (content : D → String → Option String)
    (laws : Laws m content) where
  -- Publishing writes two files.
  publish-content :
      (ad : DaemonAdvertisement) (d : D) (n : String)
      → str_eq (registry_file_for_self m) n ≡ false
      → str_eq latest_name n ≡ false
      → content (publish_registry m ad d).1 n ≡ content (prune_stale_entries m d) n
  unfolding publish_registry
  publish-content ad d n e l =
      let own = registry_file_for_self m in
      let d1 = m.create_dir_all (prune_stale_entries m d) in
      let text = to_json_bytes m ad in
      let kept =
        laws.write_other own n text d1 e ∙ laws.create_dir_all (prune_stale_entries m d) n in
      elim (Result-cases (m.write own text d1).0) [
        | inr (error, q) ↦ rw (q, publish_registry) kept
        | inl (u, q) ↦
            rw (q, publish_registry)
              (laws.write_other latest_name n text (m.create_dir_all (m.write own text d1).1) l
                ∙ laws.create_dir_all (m.write own text d1).1 n
                ∙ kept)
      ]

  -- Publishing leaves each file alone that is not the daemon's own, not latest.json, and not the
  -- registration of a process that is gone, whatever fails and whether or not it succeeds.
  pub publish_registry-keeps :
      (ad : DaemonAdvertisement) (d : D) (n : String)
      → str_eq (registry_file_for_self m) n ≡ false
      → str_eq latest_name n ≡ false
      → stale m d n ≡ false
      → content (publish_registry m ad d).1 n ≡ content d n
  publish_registry-keeps ad d n e l live =
      publish-content ad d n e l ∙ prune_stale_entries_live m content laws n d live

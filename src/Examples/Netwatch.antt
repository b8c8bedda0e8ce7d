-- ===== src/Examples/Netwatch.antt =====
-- A cable is plugged in, and pulled again.
use pingling.Prelude.{
  ℕ, any, ap, [], ◌∷◌, ◌≡◌, refl, true, false, Option, none, some, ok, ◌==◌, arith, if◌then◌else◌,
}
use pingling.Netwatch.{Interface, Update, new_backend, subscribe}
use pingling.Netwatch.Mirror.{IsDiff, snapshots, snapshot_of}
use pingling.Netwatch.Subscribers.{stays, goes_on, Knows, run_updates, subscribe-Knows}

abbrev cable : Interface
cable = record { index = 5; name = "en5"; hw_addr = ""; ips = [] }

abbrev only_cable : ℕ → Option Interface
only_cable i = if i == 5 then some cable else none

abbrev nothing : ℕ → Option Interface
nothing i = none

abbrev plugged : Update
plugged = record {
  interfaces = only_cable;
  diff_added = 5 ∷ [];
  diff_removed = [];
  diff_modified = [];
}

abbrev pulled : Update
pulled = record { interfaces = nothing; diff_added = []; diff_removed = 5 ∷ []; diff_modified = [] }

only_cable-index : (i : ℕ) (f : Interface) → only_cable i ≡ some f → f.index ≡ i
only_cable-index i f h = ground arith

only_cable_there :
    (i : ℕ) (f : Interface) → only_cable i ≡ some f → any (λ j. j == i) (5 ∷ []) ≡ true
only_cable_there i f h = ground arith

only_cable_else : (i : ℕ) → any (λ j. j == i) (5 ∷ []) ≡ false → only_cable i ≡ none
only_cable_else i h = ground arith

plugged-IsDiff : IsDiff (snapshots nothing) plugged
plugged-IsDiff = record {
  indexed = only_cable-index;
  gone = λ i h. cc;
  lost = λ i h r. refl;
  settled = λ i f h a m. let t = only_cable_there i f h in absurd cc;
}

pulled-IsDiff : IsDiff (snapshots only_cable) pulled
pulled-IsDiff = record {
  indexed = λ i f h. cc;
  gone = λ i h. refl;
  lost = λ i h r. ap snapshot_of (only_cable_else i r);
  settled = λ i f h a m. cc;
}

subscribe-Knows_example :
    Knows
      (λ n. "5")
      (snapshots nothing)
      (snapshots nothing)
      (run_updates (λ n. "5") (plugged ∷ pulled ∷ []) (subscribe (ok tt) new_backend).1).subs
subscribe-Knows_example =
    subscribe-Knows (λ n. "5") new_backend (plugged ∷ pulled ∷ []) (snapshots nothing)
      (snapshots nothing) (goes_on plugged-IsDiff (goes_on pulled-IsDiff stays))

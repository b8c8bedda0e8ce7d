-- ===== src/Process/Threads/Calls.antt =====
-- The calls of a caller whom no other thread interrupts, as runs of the threads.
use pingling.Prelude.{String, ◌≡◌, refl, arith, Result-cases, Option-cases, inl, inr}
use pingling.Process.{
  Processes, ProcessCore, may_start, spawn_process, expand_args, bring_up, start, bring_down, stop,
}
use pingling.Process.Threads.{
  System, outside, began, check, connect, spawn, spawn_fails, store, enter, take, killing,
  disconnect, kill, kill_fails, leave, Reach, here, next,
}

module _ {W Child : Type 0} (p : Processes W Child) where
  -- The threads can bring the core and the machine to these, with the caller outside again.
  pub record Runs (s : System W Child) (core : ProcessCore Child) (w : W) : Type 0 where
    pub later : System W Child
    pub way : Reach p s later
    pub out : later.caller ≡ outside
    pub core_is : later.core ≡ core
    pub world_is : later.world ≡ w

  bring_up-Runs :
      (s t : System W Child) (path : String)
      → Reach p s t
      → t.caller ≡ began path
      → Runs s (bring_up p t.core path t.world).1 (bring_up p t.core path t.world).2
  unfolding bring_up
  bring_up-Runs s t path r c =
      let run = spawn_process p t.core.spec (expand_args t.core.spec.start_args path) t.world in
      elim (Result-cases run.0) [
        | inl (child, e) ↦ record {
          later = _;
          way =
              next (next (next r (spawn path child run.1 c (ground (arith, e)))) (store child refl))
                (enter refl);
          out = refl;
          core_is = ground (arith, e);
          world_is = ground (arith, e);
        }
        | inr (error, e) ↦ record {
          later = _;
          way = next r (spawn_fails path error run.1 c (ground (arith, e)));
          out = refl;
          core_is = ground (arith, e);
          world_is = ground (arith, e);
        }
      ]

  start-Runs :
      (s : System W Child) (path : String)
      → s.caller ≡ outside
      → Runs s (start p s.core path s.world).1 (start p s.core path s.world).2
  unfolding start
  start-Runs s path c = elim (Result-cases (may_start p s.core path)) [
    | inl (u, e) ↦
        rw (e, start)
          (bring_up-Runs s _ path (next (next here (check path c e)) (connect path refl)) refl)
    | inr (error, e) ↦
        rw (e, start) (record { later = s; way = here; out = c; core_is = refl; world_is = refl })
  ]

  bring_down-Runs :
      (s t : System W Child) (child : Child)
      → Reach p s t
      → t.caller ≡ killing child
      → Runs s (bring_down p t.core child t.world).1 (bring_down p t.core child t.world).2
  unfolding bring_down
  bring_down-Runs s t child r c =
      let run = p.kill child t.world in
      elim (Result-cases run.0) [
        | inl (u, e) ↦ record {
          later = _;
          way = next (next r (kill child run.1 c (ground (arith, e)))) (leave refl);
          out = refl;
          core_is = ground (arith, e);
          world_is = ground (arith, e);
        }
        | inr (error, e) ↦ record {
          later = _;
          way = next r (kill_fails child error run.1 c (ground (arith, e)));
          out = refl;
          core_is = ground (arith, e);
          world_is = ground (arith, e);
        }
      ]

  stop-Runs :
      (s : System W Child)
      → s.caller ≡ outside
      → Runs s (stop p s.core s.world).1 (stop p s.core s.world).2
  unfolding stop
  stop-Runs s c = elim (Option-cases s.core.child) [
    | inl e ↦ record {
      later = s;
      way = here;
      out = c;
      core_is = ground (arith, e);
      world_is = ground (arith, e);
    }
    | inr (child, e) ↦
        let down =
          bring_down-Runs s _ child (next (next here (take child c e)) (disconnect child refl))
            refl in
        record {
          later = down.later;
          way = down.way;
          out = down.out;
          core_is = ground (arith, e, down.core_is);
          world_is = ground (arith, e, down.world_is);
        }
  ]

-- ===== src/Process/Status.antt =====
-- The state of a `ProcessCore` when each call, and each round of the reaper, is done before the next.
use pingling.Prelude.{
  Bool, true, false, ok, err, String, List, [], ◌∷◌, ◌≡◌, refl, none, some, arith, Result-cases,
  Bool-cases, ◌∙◌, Option-cases, inl, inr,
}
use pingling.Domain.State.{connected, disconnected, disconnecting, is_active}
use pingling.Process.Spec.{ProcessCoreSpec}
use pingling.Process.{
  Processes, ProcessCore, holds, new_core, set_state, set_child, send, may_start, spawn_process,
  expand_args, bring_up, start, bring_down, stop, restart, status, poll, report,
}

-- What may happen to a core: calls of its methods, a round of a reaper, a change of the machine.
pub data Call (W : Type 0) : Type 0 where
  start_with restart_with : String → Call W
  stop_it reap : Call W
  elsewhere : W → Call W

-- A held process is connected; without one the core is disconnected, or the last kill has failed and
-- it is disconnecting.
pub data Agrees {Child : Type 0} (failed : Bool) (core : ProcessCore Child) : Type 0 where
  on : (child : Child) → core.child ≡ some child → status core ≡ connected → Agrees failed core
  off : core.child ≡ none → status core ≡ disconnected → Agrees failed core
  stuck : failed ≡ true → core.child ≡ none → status core ≡ disconnecting → Agrees failed core

module _ {W Child : Type 0} (p : Processes W Child) where
  -- A round of a reaper with what it does about an exit.
  abbrev pub reap_round : ProcessCore Child → W → ProcessCore Child × W
  reap_round self w =
      let (found, self', w') = poll p self w in
      elim found [
        | none ↦ (self', w')
        | some r ↦ elim r [ holds code ↦ (report p self' code, w') | _ ↦ (self', w') ]
      ]

  abbrev pub call : Call W → ProcessCore Child → W → ProcessCore Child × W
  call (start_with path) self w = let (r, self', w') = start p self path w in (self', w')
  call (restart_with path) self w = let (r, self', w') = restart p self path w in (self', w')
  call stop_it self w = let (r, self', w') = stop p self w in (self', w')
  call reap self w = reap_round self w
  call (elsewhere w') self w = (self, w')

  abbrev pub run_calls : List (Call W) → ProcessCore Child → W → ProcessCore Child
  run_calls [] self w = self
  run_calls (c ∷ cs) self w = let (self', w') = call c self w in run_calls cs self' w'

  -- Whether the last kill failed: a stop or a restart of a core that holds a process kills it.
  abbrev pub kill_failed : ProcessCore Child → W → Bool → Bool
  kill_failed self w before = elim self.child [
    | none ↦ before
    | some child ↦ elim (p.kill child w).0 [ ok u ↦ false | err e ↦ true ]
  ]

  abbrev pub call_failed : Call W → ProcessCore Child → W → Bool → Bool
  call_failed (restart_with path) self w before = kill_failed self w before
  call_failed stop_it self w before = kill_failed self w before
  call_failed _ self w before = before

  abbrev pub last_failed : List (Call W) → ProcessCore Child → W → Bool → Bool
  last_failed [] self w before = before
  last_failed (c ∷ cs) self w before =
      let (self', w') = call c self w in last_failed cs self' w' (call_failed c self w before)

  same :
      {f : Bool} {core core' : ProcessCore Child}
      → Agrees f core
      → core'.child ≡ core.child
      → core'.state ≡ core.state
      → Agrees f core'
  unfolding status
  same (on child h q) c e = on child (c ∙ h) (e ∙ q)
  same (off h q) c e = off (c ∙ h) (e ∙ q)
  same (stuck k h q) c e = stuck k (c ∙ h) (e ∙ q)

  start-Agrees :
      (f : Bool) (core : ProcessCore Child) (path : String) (w : W)
      → Agrees f core
      → Agrees f (start p core path w).1
  unfolding start bring_up may_start set_state set_child status
  start-Agrees f core path w a = elim (Result-cases (may_start p core path)) [
    | inr (error, e) ↦ same a (ground (arith, e)) (ground (arith, e))
    | inl (u, e) ↦
        elim (Result-cases
          (spawn_process p core.spec (expand_args core.spec.start_args path) w).0) [
            | inr (error, e') ↦ off (ground (arith, e, e')) (ground (arith, e, e'))
            | inl (child, e') ↦ on child (ground (arith, e, e')) (ground (arith, e, e'))
          ]
  ]

  stop-Agrees :
      (f : Bool) (core : ProcessCore Child) (w : W)
      → Agrees f core
      → Agrees (kill_failed core w f) (stop p core w).1
  unfolding stop bring_down set_state set_child status
  stop-Agrees f core w a = elim (Option-cases core.child) [
    | inl e ↦ rw (e, kill_failed) (same a (ground (arith, e)) (ground (arith, e)))
    | inr (child, e) ↦ elim (Result-cases (p.kill child w).0) [
      | inr (error, e') ↦
          stuck (ground (arith, e, e')) (ground (arith, e, e')) (ground (arith, e, e'))
      | inl (u, e') ↦ off (ground (arith, e, e')) (ground (arith, e, e'))
    ]
  ]

  -- A core that is not active holds no process, so that nothing is killed.
  inactive :
      (f : Bool) (core : ProcessCore Child) (w : W)
      → Agrees f core
      → is_active (status core) ≡ false
      → Agrees (kill_failed core w f) core
  unfolding is_active
  inactive f core w (on child h q) e = absurd (ground (arith, q, e))
  inactive f core w (off h q) e = off h q
  inactive f core w (stuck k h q) e = stuck (rw h k) h q

  restart-Agrees :
      (f : Bool) (core : ProcessCore Child) (path : String) (w : W)
      → Agrees f core
      → Agrees (kill_failed core w f) (restart p core path w).1
  unfolding restart
  restart-Agrees f core path w a = elim (Bool-cases (is_active (status core))) [
    | inr e ↦ rw (e, restart) (start-Agrees _ core path w (inactive f core w a e))
    | inl e ↦ elim (Result-cases (stop p core w).0) [
      | inr (error, e') ↦ rw (e, e', restart) (stop-Agrees f core w a)
      | inl (u, e') ↦ rw (e, e', restart) (start-Agrees _ _ path _ (stop-Agrees f core w a))
    ]
  ]

  reap_round-Agrees :
      (f : Bool) (core : ProcessCore Child) (w : W) → Agrees f core → Agrees f (reap_round core w).0
  unfolding poll report send set_state set_child status
  reap_round-Agrees f core w a = elim (Option-cases core.child) [
    | inl e ↦ same a (ground (arith, e)) (ground (arith, e))
    | inr (child, e) ↦ elim (Result-cases (p.try_wait child w).0) [
      | inr (error, e') ↦ same a (ground (arith, e, e')) (ground (arith, e, e'))
      | inl (exited, e') ↦ elim (Option-cases exited) [
        | inl q ↦ same a (ground (arith, e, e', q)) (ground (arith, e, e', q))
        | inr (x, q) ↦ off (ground (arith, e, e', q)) (ground (arith, e, e', q))
      ]
    ]
  ]

  call-Agrees :
      (c : Call W) (f : Bool) (core : ProcessCore Child) (w : W)
      → Agrees f core
      → Agrees (call_failed c core w f) (call c core w).0
  call-Agrees (start_with path) f core w a = start-Agrees f core path w a
  call-Agrees (restart_with path) f core w a = restart-Agrees f core path w a
  call-Agrees stop_it f core w a = stop-Agrees f core w a
  call-Agrees reap f core w a = reap_round-Agrees f core w a
  call-Agrees (elsewhere w') f core w a = a

  run_calls_from-Agrees :
      (cs : List (Call W)) (f : Bool) (core : ProcessCore Child) (w : W)
      → Agrees f core
      → Agrees (last_failed cs core w f) (run_calls cs core w)
  run_calls_from-Agrees [] f core w a = a
  run_calls_from-Agrees (c ∷ cs) f core w a =
      run_calls_from-Agrees cs (call_failed c core w f) (call c core w).0 (call c core w).1
        (call-Agrees c f core w a)

  -- After any calls of start, restart and stop, rounds of the reaper and changes of the machine, each
  -- of which is done before the next: a core that holds a process is connected, and one that holds none
  -- is disconnected, or disconnecting, which it is only if the last kill by a stop or restart failed.
  pub run_calls-Agrees :
      (spec : ProcessCoreSpec) (cs : List (Call W)) (w : W)
      → Agrees (last_failed cs (new_core spec) w false) (run_calls cs (new_core spec) w)
  unfolding new_core status
  run_calls-Agrees spec cs w = run_calls_from-Agrees cs false (new_core spec) w (off refl refl)

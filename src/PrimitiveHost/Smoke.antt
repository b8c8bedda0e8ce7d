-- ===== src/PrimitiveHost/Smoke.antt =====
-- What the command `smoke` leaves behind.
use pingling.Prelude.{
  String, [], ◌∷◌, ◌≡◌, refl, ap, sym, subst, Result, none, some, ok, err, arith, Bool-cases,
  Result-cases, inl, inr,
}
use pingling.Prelude.Text.{format, is_empty}
use pingling.Domain.Error.{VpnError, process_stop_failed}
use pingling.Domain.State.{is_active, state_str, disconnected, connecting, connected, disconnecting}
use pingling.Mocks.Core as Mock
use pingling.Mocks.Core.{MockCore}
use pingling.Process as Process
use pingling.Process.{
  Processes, ProcessCore, new_core, new_singbox, set_state, set_child, may_start, bring_up,
  bring_down, spawn_process, expand_args, status,
}
use pingling.PrimitiveHost.{
  Options, Core, mock, process, build_core, core_status, core_validate, core_start, core_stop,
  smoke, Outcome,
}

-- The core runs nothing.
abbrev pub IsIdle : {Child : Type 0} → Core Child → Type 0
IsIdle (mock m) = Mock.status m ≡ disconnected
IsIdle (process c) = c.child ≡ none

abbrev pub IsMock : {Child : Type 0} → Core Child → Type 0
IsMock (mock m) = Unit
IsMock (process c) = ⊥

module _ {W Child : Type 0} (p : Processes W Child) where
  -- How the stop of a process ends: the line, and the machine. The process is killed and waited for, or
  -- the kill fails.
  pub data Halted (child : Child) (w : W) : String → W → Type 0 where
    dead :
        (w' : W)
        → p.kill child w ≡ (ok tt, w')
        → Halted child w "stopped: disconnected" (p.wait child w')
    alive :
        (e : String) (w' : W)
        → p.kill child w ≡ (err e, w')
        → Halted child w "stopped: disconnecting" w'

  -- What `smoke` prints and returns, the core it leaves, and what it did with the process.
  pub data Smoked (core : Core Child) (config : String) : Outcome p → Type 0 where
    fails :
        {left : Core Child} {w : W} (e : String)
        → IsIdle left
        → Smoked core config (err e, [], left, w)
    runs_mock :
        {left : MockCore} {w : W}
        → IsMock core
        → Mock.status left ≡ disconnected
        → Smoked core config
            (ok tt, "started: connected" ∷ "stopped: disconnected" ∷ [], mock left, w)
    runs_process :
        {left : ProcessCore Child} {line : String} {w : W} (c : ProcessCore Child) (w1 w2 : W)
        (child : Child)
        → core ≡ process c
        → spawn_process p c.spec (expand_args c.spec.start_args config) w1 ≡ (ok child, w2)
        → Halted child w2 line w
        → left.child ≡ none
        → Smoked core config (ok tt, "started: connected" ∷ line ∷ [], process left, w)

  -- The core after a start.
  abbrev up : ProcessCore Child → Child → ProcessCore Child
  up c child = set_state (set_child (set_state c connecting) (some child)) connected

  abbrev down : ProcessCore Child → ProcessCore Child
  down c = set_state (set_child c none) disconnecting

  core_start-up :
      (c : ProcessCore Child) (config : String) (w w' : W) (child : Child)
      → may_start p c config ≡ ok tt
      → spawn_process p c.spec (expand_args c.spec.start_args config) w ≡ (ok child, w')
      → core_start p (process c) config w ≡ (ok tt, process (up c child), w')
  unfolding core_start Process.start bring_up set_state set_child
  core_start-up c config w w' child e s = ground (arith, e, s)

  core_stop-dead :
      (c : ProcessCore Child) (w w' : W) (child : Child)
      → c.child ≡ some child
      → p.kill child w ≡ (ok tt, w')
      → core_stop p (process c) w
        ≡ (ok tt, process (set_state (down c) disconnected), p.wait child w')
  unfolding core_stop Process.stop bring_down set_state set_child
  core_stop-dead c w w' child h k = ground (arith, h, k)

  core_stop-alive :
      (c : ProcessCore Child) (w w' : W) (child : Child) (e : String)
      → c.child ≡ some child
      → p.kill child w ≡ (err e, w')
      → core_stop p (process c) w ≡ (err (process_stop_failed e), process (down c), w')
  unfolding core_stop Process.stop bring_down set_state set_child
  core_stop-alive c w w' child e h k = ground (arith, h, k)

  -- The lines and the end of a command whose core starts.
  smoke-ran :
      (core core2 core3 : Core Child) (config : String) (w w2 w3 : W)
      (r : Result (Unit {0}) VpnError)
      → (core_validate p core config w).0 ≡ ok tt
      → core_start p core config (core_validate p core config w).1 ≡ (ok tt, core2, w2)
      → core_stop p core2 w2 ≡ (r, core3, w3)
      → smoke p core config w ≡ (
        ok tt,
        format ("started: " ∷ state_str (core_status p core2) ∷ [])
            ∷ format ("stopped: " ∷ state_str (core_status p core3) ∷ [])
            ∷ [],
        core3,
        w3,
      )
  unfolding smoke
  smoke-ran core core2 core3 config w w2 w3 r v s t = ground (arith, v, s, t)

  process-Smoked :
      (c : ProcessCore Child) (config : String) (w : W)
      → c.child ≡ none
      → Smoked (process c) config (smoke p (process c) config w)
  unfolding smoke core_start core_stop core_status Process.start Process.stop bring_up bring_down
      set_state set_child status format state_str
  process-Smoked c config w off =
      let w1 = (core_validate p (process c) config w).1 in
      let spawned = spawn_process p c.spec (expand_args c.spec.start_args config) w1 in
      elim (Result-cases (core_validate p (process c) config w).0) [
        | inr (error, v) ↦ rw (v, smoke) (fails _ off)
        | inl (u, v) ↦ elim (Result-cases (may_start p c config)) [
          | inr (error, e) ↦ rw (v, e, smoke) (fails _ (ground (arith, e, off)))
          | inl (u', e) ↦ elim (Result-cases spawned.0) [
            | inr (error, s) ↦ rw (v, e, s, smoke) (fails _ (ground (arith, e, s, off)))
            | inl (child, s) ↦
                let here = ap (λ r. (r, spawned.1)) s in
                elim (Result-cases (p.kill child spawned.1).0) [
                  | inl (u'', k) ↦
                      let killed = ap (λ r. (r, (p.kill child spawned.1).1)) k in
                      let started = core_start-up c config w1 spawned.1 child e here in
                      let stopped = core_stop-dead (up c child) spawned.1 _ child refl killed in
                      subst (Smoked (process c) config)
                        (sym (smoke-ran _ _ _ config w _ _ _ v started stopped))
                        (runs_process c w1 spawned.1 child refl here (dead _ killed) refl)
                  | inr (error, k) ↦
                      let killed = ap (λ r. (r, (p.kill child spawned.1).1)) k in
                      let started = core_start-up c config w1 spawned.1 child e here in
                      let stopped =
                        core_stop-alive (up c child) spawned.1 _ child error refl killed in
                      subst (Smoked (process c) config)
                        (sym (smoke-ran _ _ _ config w _ _ _ v started stopped))
                        (runs_process c w1 spawned.1 child refl here (alive error _ killed) refl)
                ]
          ]
        ]
      ]

  mock-Smoked :
      (m : MockCore) (config : String) (w : W)
      → Mock.status m ≡ disconnected
      → Smoked (mock m) config (smoke p (mock m) config w)
  unfolding smoke core_start core_stop core_status Mock.start Mock.stop Mock.status Mock.bring_up
      Mock.bring_down Mock.emit_state Mock.send_log is_active format state_str
  mock-Smoked m config w off = elim (Result-cases (core_validate p (mock m) config w).0) [
    | inr (error, v) ↦ rw (v, smoke) (fails _ off)
    | inl (u, v) ↦ elim (Bool-cases (is_empty config)) [
      | inl e ↦ rw (v, e, smoke) (fails _ (ground (arith, e, off)))
      | inr e ↦
          let w1 = (core_validate p (mock m) config w).1 in
          let m2 = (Mock.start m config).1 in
          let m3 = (Mock.stop m2).1 in
          let on : Mock.status m2 ≡ connected = ground (arith, e, off) in
          let off_again : Mock.status m3 ≡ disconnected = ground (arith, e, off) in
          let started : core_start p (mock m) config w1 ≡ (ok tt, mock m2, w1) =
            ground (arith, e, off) in
          subst (Smoked (mock m) config)
            (sym (smoke-ran (mock m) (mock m2) (mock m3) config w w1 w1 _ v started refl))
            (rw on (runs_mock tt refl))
    ]
  ]

  -- A core that was built for a command runs nothing.
  build_core-IsIdle : (opts : Options) (core : Core Child) → build_core opts ≡ ok core → IsIdle core
  unfolding build_core Mock.new_core Mock.status new_core new_singbox
  build_core-IsIdle opts core built = ground arith

  -- The command `smoke` fails without a line and with a core that holds no process, or it succeeds after
  -- the core was connected. Then a process that it spawned has been killed and waited for, and the
  -- second line is that the core is disconnected; or the kill failed, and the line is that the core
  -- is disconnecting. The core holds no process in either case.
  pub smoke-Smoked :
      (opts : Options) (core : Core Child) (config : String) (w : W)
      → build_core opts ≡ ok core
      → Smoked core config (smoke p core config w)
  smoke-Smoked opts (mock m) config w built =
      mock-Smoked m config w (build_core-IsIdle opts (mock m) built)
  smoke-Smoked opts (process c) config w built =
      process-Smoked c config w (build_core-IsIdle opts (process c) built)

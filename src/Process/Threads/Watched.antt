-- ===== src/Process/Threads/Watched.antt =====
-- A process that has exited is noticed.
use mathlib.Core.List.{append_assoc}
use pingling.Prelude.{
  String, List, [], ◌∷◌, ◌++◌, ◌≡◌, refl, Bool, true, false, Option, none, some, ok, err, sym, ◌≢◌,
  arith, Result-cases, Option-cases, inl, inr, In, In-append_left, In-append_right, In-append_cases,
  In-Split,
}
use pingling.Prelude.Int.{ℤ}
use pingling.Domain.State.{disconnected}
use pingling.Process.Spec.{ProcessCoreSpec}
use pingling.Process.{
  Processes, ProcessCore, Reaper, asleep, holds, told, new_core, set_state, set_child, send,
  log_stdout, log_stderr, may_start, poll, crash_event, exit_code, status,
}
use pingling.Process.Threads.{
  Caller, outside, stored, locked, System, begin, Step, check, connect, spawn, spawn_fails, store,
  enter, take, disconnect, kill, kill_fails, leave, wake, tell, crash, print, warn, elsewhere,
  Reach, here, next,
}

-- The caller may still be about to spawn the reaper of the child.
abbrev pub storing : {Child : Type 0} → Caller Child → Bool
storing stored = true
storing _ = false

-- A child that the core holds has a reaper that looks at it.
abbrev pub Watched : {W Child : Type 0} → System W Child → Type 0
Watched s = (child : _) → s.core.child ≡ some child → storing s.caller ≡ false → In asleep s.reapers

module _ {W Child : Type 0} (p : Processes W Child) where
  -- `Child::try_wait` gives other error.
  abbrev pub Waits : Type 0
  Waits = (child : Child) (w : W) (e : String) → (p.try_wait child w).0 ≢ err e

  In-replace :
      (r t : Reaper) (before after : List Reaper)
      → r ≢ asleep
      → In asleep (before ++ r ∷ after)
      → In asleep (before ++ t ∷ after)
  In-replace r t before after other i = elim (In-append_cases asleep before (r ∷ after) i) [
    | inl l ↦ In-append_left asleep before (t ∷ after) l
    | inr (inl e) ↦ absurd (other (sym e))
    | inr (inr m) ↦ In-append_right asleep before (t ∷ after) (inr m)
  ]

  In-drop :
      (r : Reaper) (before after : List Reaper)
      → r ≢ asleep
      → In asleep (before ++ r ∷ after)
      → In asleep (before ++ after)
  In-drop r before after other i = elim (In-append_cases asleep before (r ∷ after) i) [
    | inl l ↦ In-append_left asleep before after l
    | inr (inl e) ↦ absurd (other (sym e))
    | inr (inr m) ↦ In-append_right asleep before after m
  ]

  -- A reaper that leaves a child with the core goes on.
  poll-asleep :
      (core core' : ProcessCore Child) (w w' : W) (r : Option Reaper) (child : Child)
      → Waits
      → poll p core w ≡ (r, core', w')
      → core'.child ≡ some child
      → r ≡ some asleep
  unfolding poll set_child
  poll-asleep core core' w w' r child waits h e = elim (Option-cases core.child) [
    | inl n ↦ ground arith
    | inr (c, q) ↦ elim (Result-cases ((p.try_wait c w).0)) [
      | inl (x, q') ↦ ground arith
      | inr (e', q') ↦ absurd (waits c w e' q')
    ]
  ]

  Step-Watched : {s t : System W Child} → Waits → Step p s t → Watched s → Watched t
  unfolding set_state set_child send log_stdout log_stderr may_start
  Step-Watched {s} waits (check path e ok_start) a = λ child c q. ground (arith, a child, e)
  Step-Watched {s} waits (connect path e) a = λ child c q. ground (arith, a child, e)
  Step-Watched {s} waits (spawn path child w e run) a = λ child c q. ground (arith, a child, e)
  Step-Watched {s} waits (spawn_fails path err' w e run) a = λ child c q. ground (arith, a child, e)
  Step-Watched {s} waits (store child e) a = λ child c q. ground (arith, a child, e)
  Step-Watched {s} waits (enter e) a = λ child c q. inl refl
  Step-Watched {s} waits (take child e held') a = λ child c q. ground (arith, a child, e)
  Step-Watched {s} waits (disconnect child e) a = λ child c q. ground (arith, a child, e)
  Step-Watched {s} waits (kill child w e run) a = λ child c q. ground (arith, a child, e)
  Step-Watched {s} waits (kill_fails child err' w e run) a = λ child c q. ground (arith, a child, e)
  Step-Watched {s} waits (leave e) a = λ child c q. ground (arith, a child, e)
  Step-Watched {s} waits (wake before after r core w free e run) a = λ child c q.
      rw (poll-asleep s.core core s.world w r child waits run c) (
        In-append_left asleep (before ++ asleep ∷ []) after
          (In-append_right asleep before (asleep ∷ []) (inl refl)))
  Step-Watched {s} waits (tell before after code e) a = λ child c q.
      In-replace (holds code) (told code) before after (λ e'. cc) (rw e at (a child c q))
  Step-Watched {s} waits (crash before after code e) a =
      λ child c q. In-drop (told code) before after (λ e'. cc) (rw e at (a child c q))
  Step-Watched {s} waits (print line) a = a
  Step-Watched {s} waits (warn line) a = a
  Step-Watched {s} waits (elsewhere w) a = a

  threads-Watched :
      (spec : ProcessCoreSpec) (w : W) {s : System W Child}
      → Waits
      → Reach p (begin spec w) s
      → Watched s
  unfolding begin new_core
  threads-Watched spec w waits here = λ child c q. cc
  threads-Watched spec w waits (next r st) = Step-Watched waits st (threads-Watched spec w waits r)

  -- A state further on, in which the exit of the child has been noticed.
  pub record Noticed (s : System W Child) (exit_status : Option ℤ) : Type 0 where
    pub later : System W Child
    pub way : Reach p s later
    pub gone : later.core.child ≡ none
    pub down : status later.core ≡ disconnected
    pub event : later.core.events ≡ s.core.events ++ crash_event p (exit_code exit_status) ∷ []

  poll-exited :
      (core : ProcessCore Child) (w w' : W) (child : Child) (exit_status : Option ℤ)
      → core.child ≡ some child
      → p.try_wait child w ≡ (ok (some exit_status), w')
      → poll p core w ≡ (some (holds (exit_code exit_status)), set_child core none, w')
  unfolding poll
  poll-exited core w w' child exit_status c e = ground arith

  -- Whatever the threads have done so far, and however often the core was started and stopped: when
  -- the caller is outside, and the process that the core holds has exited, a reaper is there to notice
  -- it. Its next round takes the child, sets the state to disconnected and sends the crash with the
  -- exit code, or -1 without one. This asks that `Child::try_wait` never gives an error.
  pub threads-Noticed :
      (spec : ProcessCoreSpec) (w w' : W) (s : System W Child) (child : Child)
      (exit_status : Option ℤ)
      → Waits
      → Reach p (begin spec w) s
      → s.caller ≡ outside
      → s.core.child ≡ some child
      → p.try_wait child s.world ≡ (ok (some exit_status), w')
      → Noticed s exit_status
  unfolding set_state set_child send status locked
  threads-Noticed spec w w' s child exit_status waits r out c e =
      let code = exit_code exit_status in
      let place =
        In-Split asleep s.reapers (threads-Watched spec w waits r child c (ground (arith, out))) in
      let woken = next here (
        wake place.before place.after (some (holds code)) (set_child s.core none) w'
          (ground (arith, out)) place.here (poll-exited s.core s.world w' child exit_status c e)) in
      let told_state =
        next woken (tell place.before place.after code (append_assoc place.before _ _)) in
      record {
        later = _;
        way = next told_state (crash place.before place.after code refl);
        gone = refl;
        down = refl;
        event = refl;
      }

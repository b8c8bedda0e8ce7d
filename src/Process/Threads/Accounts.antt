-- ===== src/Process/Threads/Accounts.antt =====
-- What becomes of the processes that are spawned.
use pingling.Prelude.{
  ℕ, suc, ◌+◌, List, [], ◌∷◌, ◌++◌, ◌≡◌, refl, ap, Bool, true, false, Option, none, some, ok, arith,
}
use pingling.Domain.State.{CoreEvent, log, error_log, crashed}
use pingling.Process.Spec.{ProcessCoreSpec}
use pingling.Process.{
  Processes, ProcessCore, Reaper, asleep, holds, told, new_core, set_state, set_child, send,
  log_stdout, log_stderr, may_start, poll, crash_event,
}
use pingling.Process.Threads.{
  Caller, checked, began, spawned, System, begin, Step, check, connect, spawn, spawn_fails, store,
  enter, take, disconnect, kill, kill_fails, leave, wake, tell, crash, print, warn, elsewhere,
  stays, took_one, Reach, here, next,
}

-- The processes that the core holds, and those in the hand of a `start`.
abbrev pub held : {Child : Type 0} → Option Child → ℕ
held none = 0
held (some child) = 1

abbrev pub carried : {Child : Type 0} → Caller Child → ℕ
carried (spawned child) = 1
carried _ = 0

-- A `start` is on its way, and has not stored its child.
abbrev pub starting : {Child : Type 0} → Caller Child → Bool
starting (checked path) = true
starting (began path) = true
starting (spawned child) = true
starting _ = false

-- The reapers that have taken a process and not yet sent its event.
abbrev pub pending : List Reaper → ℕ
pending [] = 0
pending (asleep ∷ rs) = pending rs
pending (holds code ∷ rs) = suc (pending rs)
pending (told code ∷ rs) = suc (pending rs)

abbrev pub is_crash : CoreEvent → ℕ
is_crash (crashed msg) = 1
is_crash _ = 0

abbrev pub crashes : List CoreEvent → ℕ
crashes [] = 0
crashes (e ∷ es) = is_crash e + crashes es

pub record Accounted {W Child : Type 0} (s : System W Child) : Type 0 where
  -- A `start` never overwrites a child.
  pub free : starting s.caller ≡ true → s.core.child ≡ none
  -- Each process is taken by a reaper, taken by a `stop`, held, or about to be stored.
  pub each : s.spawned ≡ s.reaped + s.stopped + held s.core.child + carried s.caller
  -- Each that a reaper took has been sent as crashed, or is about to be.
  pub sent : s.reaped ≡ crashes s.core.events + pending s.reapers

pending-append : (rs ts : List Reaper) → pending (rs ++ ts) ≡ pending rs + pending ts
pending-append [] ts = omega arith
pending-append (asleep ∷ rs) ts = pending-append rs ts
pending-append (holds code ∷ rs) ts = omega (arith, pending-append rs ts)
pending-append (told code ∷ rs) ts = omega (arith, pending-append rs ts)

crashes-append : (es fs : List CoreEvent) → crashes (es ++ fs) ≡ crashes es + crashes fs
crashes-append [] fs = omega arith
crashes-append (e ∷ es) fs = omega (arith, crashes-append es fs)

module _ {W Child : Type 0} (p : Processes W Child) where
  may_start-none :
      (core : ProcessCore Child) (path : _) → may_start p core path ≡ ok tt → core.child ≡ none
  unfolding may_start
  may_start-none core path h = ground arith

  -- What a reaper changes when it looks at the child.
  poll-Accounted :
      (core core' : ProcessCore Child) (w w' : W) (r : Option Reaper)
      → poll p core w ≡ (r, core', w')
      → (held core.child ≡ took_one r + held core'.child)
        × (took_one r ≡ pending (stays r))
        × (core'.events ≡ core.events)
  unfolding poll set_child
  poll-Accounted core core' w w' r h = ground arith

  pub Step-Accounted : {s t : System W Child} → Step p s t → Accounted s → Accounted t
  unfolding set_state set_child send log_stdout log_stderr crash_event
  Step-Accounted {s} (check path e ok_start) a = record {
    free = λ _. may_start-none s.core path ok_start;
    each = ground (arith, a.each);
    sent = a.sent;
  }
  Step-Accounted {s} (connect path e) a = record {
    free = ground (arith, a.free, e);
    each = ground (arith, a.each, e);
    sent = a.sent;
  }
  Step-Accounted {s} (spawn path child w e run) a = record {
    free = ground (arith, a.free, e);
    each = ground (arith, a.each, e);
    sent = a.sent;
  }
  Step-Accounted {s} (spawn_fails path err' w e run) a = record {
    free = ground (arith, a.free, e);
    each = ground (arith, a.each, e);
    sent = a.sent;
  }
  Step-Accounted {s} (store child e) a = record {
    free = ground (arith, a.free, e);
    each = ground (arith, a.each, e);
    sent = a.sent;
  }
  Step-Accounted {s} (enter e) a = record {
    free = ground (arith, a.free, e);
    each = ground (arith, a.each, e);
    sent = a.sent;
  }
  Step-Accounted {s} (take child e held') a = record {
    free = ground (arith, a.free, e);
    each = ground (arith, a.each, e);
    sent = a.sent;
  }
  Step-Accounted {s} (disconnect child e) a = record {
    free = ground (arith, a.free, e);
    each = ground (arith, a.each, e);
    sent = a.sent;
  }
  Step-Accounted {s} (kill child w e run) a = record {
    free = ground (arith, a.free, e);
    each = ground (arith, a.each, e);
    sent = a.sent;
  }
  Step-Accounted {s} (kill_fails child err' w e run) a = record {
    free = ground (arith, a.free, e);
    each = ground (arith, a.each, e);
    sent = a.sent;
  }
  Step-Accounted {s} (leave e) a = record {
    free = ground (arith, a.free, e);
    each = ground (arith, a.each, e);
    sent = a.sent;
  }
  Step-Accounted {s} (wake before after r core w free e run) a =
      let q = poll-Accounted s.core core s.world w r run in
      record {
        free = ground (arith, a.free, q);
        each = omega (arith, a.each, q.0);
        sent = omega (
          arith,
          a.sent,
          q.1,
          ap crashes q.2,
          ap pending e,
          pending-append before (asleep ∷ after),
          pending-append (before ++ stays r) after,
          pending-append before (stays r),
        );
      }
  Step-Accounted {s} (tell before after code e) a = record {
    free = a.free;
    each = a.each;
    sent = omega (
      arith,
      a.sent,
      ap pending e,
      pending-append before (holds code ∷ after),
      pending-append before (told code ∷ after),
    );
  }
  Step-Accounted {s} (crash before after code e) a = record {
    free = a.free;
    each = a.each;
    sent = omega (
      arith,
      a.sent,
      ap pending e,
      crashes-append s.core.events (crash_event p code ∷ []),
      pending-append before (told code ∷ after),
      pending-append before after,
    );
  }
  Step-Accounted {s} (print line) a = record {
    free = a.free;
    each = a.each;
    sent = omega (arith, a.sent, crashes-append s.core.events (log line ∷ []));
  }
  Step-Accounted {s} (warn line) a = record {
    free = a.free;
    each = a.each;
    sent = omega (arith, a.sent, crashes-append s.core.events (error_log line ∷ []));
  }
  Step-Accounted {s} (elsewhere w) a = record { free = a.free; each = a.each; sent = a.sent }

  -- In every state that the threads of a new process core can reach, in any order of their locks and
  -- whatever the processes do: no `start` is about to overwrite a child; each process that was spawned
  -- is held by the core, is in the hand of a `start`, was taken by a `stop`, or was taken by a reaper;
  -- and each that a reaper took has been sent as one crashed event, or is about to be.
  pub threads-Accounted :
      (spec : ProcessCoreSpec) (w : W) {s : System W Child} → Reach p (begin spec w) s → Accounted s
  unfolding begin new_core
  threads-Accounted spec w here = record { free = λ e. refl; each = refl; sent = refl }
  threads-Accounted spec w (next r st) = Step-Accounted st (threads-Accounted spec w r)

-- ===== src/Process/Threads.antt =====
-- The threads of a `ProcessCore` of crates/cores/core-process/src/lib.rs, lock by lock.
--
-- The caller, which has the core for itself while it is in `start` or `stop` (`&mut self`), and the
-- reapers, of which a start spawns one, take turns. `stop` keeps the lock of the child to its end, so
-- that no reaper looks at the child meanwhile.
pub mod Accounts
pub mod Calls
pub mod Late
pub mod Watched
use pingling.Prelude.{
  ℕ, suc, ◌+◌, String, List, [], ◌∷◌, ◌++◌, ◌≡◌, Bool, true, false, Option, none, some, Result, ok,
  err,
}
use pingling.Prelude.Int.{ℤ}
use pingling.Domain.Error.{VpnError}
use pingling.Domain.State.{disconnected, connecting, connected, disconnecting, CoreEvent}
use pingling.Process.Spec.{ProcessCoreSpec}
use pingling.Process.{
  Processes, ProcessCore, Reaper, asleep, holds, told, new_core, set_state, set_child, send,
  log_stdout, log_stderr, may_start, spawn_process, expand_args, poll, crash_event,
}

-- Where the caller is: outside; in `start`, past the checks, after the first write of the state, with
-- the new child in hand, with the child stored; in `stop`, with the child taken, with the state
-- written, and with the process waited for.
pub data Caller (Child : Type 0) : Type 0 where
  outside : Caller Child
  checked began : String → Caller Child
  spawned : Child → Caller Child
  stored : Caller Child
  taken killing : Child → Caller Child
  waited : Caller Child

-- The caller holds the lock of the child.
unfoldable pub locked : {Child : Type 0} → Caller Child → Bool
locked (taken child) = true
locked (killing child) = true
locked waited = true
locked _ = false

-- The counts are those of the processes that were spawned, that a `stop` took, and that a reaper took.
pub record System (W Child : Type 0) : Type 0 where
  pub core : ProcessCore Child
  pub world : W
  pub caller : Caller Child
  pub reapers : List Reaper
  pub spawned : ℕ
  pub stopped : ℕ
  pub reaped : ℕ

unfoldable pub begin : {W Child : Type 0} → ProcessCoreSpec → W → System W Child
begin spec w = record {
  core = new_core spec;
  world = w;
  caller = outside;
  reapers = [];
  spawned = 0;
  stopped = 0;
  reaped = 0;
}

-- The reapers that come of what `poll` says of one of them.
abbrev pub stays : Option Reaper → List Reaper
stays none = []
stays (some r) = r ∷ []

abbrev pub took_one : Option Reaper → ℕ
took_one (some (holds code)) = 1
took_one _ = 0

module _ {W Child : Type 0} (p : Processes W Child) where
  pub data Step (s : System W Child) : System W Child → Type 0 where
    check :
        (path : String)
        → s.caller ≡ outside
        → may_start p s.core path ≡ ok tt
        → Step s (record s { caller = checked path })
    connect :
        (path : String)
        → s.caller ≡ checked path
        → Step s (record s { core = set_state s.core connecting; caller = began path })
    spawn :
        (path : String) (child : Child) (w : W)
        → s.caller ≡ began path
        → spawn_process p s.core.spec (expand_args s.core.spec.start_args path) s.world
          ≡ (ok child, w)
        → Step s (record s { world = w; caller = spawned child; spawned = suc s.spawned })
    spawn_fails :
        (path : String) (e : VpnError) (w : W)
        → s.caller ≡ began path
        → spawn_process p s.core.spec (expand_args s.core.spec.start_args path) s.world ≡ (err e, w)
        → Step s (record s { core = set_state s.core disconnected; world = w; caller = outside })
    store :
        (child : Child)
        → s.caller ≡ spawned child
        → Step s (record s { core = set_child s.core (some child); caller = stored })
    -- The last lock of `start`, and the new reaper.
    enter :
        s.caller ≡ stored
        → Step s (record s {
          core = set_state s.core connected;
          caller = outside;
          reapers = asleep ∷ s.reapers;
        })
    take :
        (child : Child)
        → s.caller ≡ outside
        → s.core.child ≡ some child
        → Step s (record s {
          core = set_child s.core none;
          caller = taken child;
          stopped = suc s.stopped;
        })
    disconnect :
        (child : Child)
        → s.caller ≡ taken child
        → Step s (record s { core = set_state s.core disconnecting; caller = killing child })
    kill :
        (child : Child) (w : W)
        → s.caller ≡ killing child
        → p.kill child s.world ≡ (ok tt, w)
        → Step s (record s { world = p.wait child w; caller = waited })
    kill_fails :
        (child : Child) (e : String) (w : W)
        → s.caller ≡ killing child
        → p.kill child s.world ≡ (err e, w)
        → Step s (record s { world = w; caller = outside })
    leave :
        s.caller ≡ waited
        → Step s (record s { core = set_state s.core disconnected; caller = outside })
    wake :
        (before after : List Reaper) (r : Option Reaper) (core : ProcessCore Child) (w : W)
        → locked s.caller ≡ false
        → s.reapers ≡ before ++ asleep ∷ after
        → poll p s.core s.world ≡ (r, core, w)
        → Step s (record s {
          core = core;
          world = w;
          reapers = before ++ stays r ++ after;
          reaped = took_one r + s.reaped;
        })
    tell :
        (before after : List Reaper) (code : ℤ)
        → s.reapers ≡ before ++ holds code ∷ after
        → Step s (record s {
          core = set_state s.core disconnected;
          reapers = before ++ told code ∷ after;
        })
    crash :
        (before after : List Reaper) (code : ℤ)
        → s.reapers ≡ before ++ told code ∷ after
        → Step s (record s { core = send s.core (crash_event p code); reapers = before ++ after })
    print : (line : String) → Step s (record s { core = log_stdout s.core line })
    warn : (line : String) → Step s (record s { core = log_stderr s.core line })
    -- The rest of the machine: a process exits, a file comes or goes.
    elsewhere : (w : W) → Step s (record s { world = w })

  pub data Reach (s : System W Child) : System W Child → Type 0 where
    here : Reach s s
    next : {t u : System W Child} → Reach s t → Step t u → Reach s u

-- ===== src/Examples/Process.antt =====
-- Runs of a process core, and the witnesses of its properties.
use pingling.Prelude.{ℕ, ◌+◌, List, [], ◌∷◌, refl, true, false, none, some, ok, leb, if◌then◌else◌}
use pingling.Prelude.Int.{pos}
use pingling.Prelude.Text.{contains_char}
use pingling.Domain.State.{connected}
use pingling.Process.Spec.{ProcessCoreSpec, new_spec}
use pingling.Process.{
  Processes, asleep, holds, new_core, set_state, set_child, may_start, spawn_process,
  resolve_binary,
}
use pingling.Process.Status.{
  Call, start_with, restart_with, stop_it, reap, elsewhere as changes, Agrees, last_failed,
  run_calls, run_calls-Agrees,
}
use pingling.Process.Threads.{
  System, outside, begin, check, connect, spawn, store, enter, elsewhere, Reach, here, next,
}
use pingling.Process.Threads.Accounts.{Accounted, threads-Accounted}
use pingling.Process.Threads.Watched.{Noticed, threads-Noticed}

-- A process is the time at which it was spawned, and exits with 3 two ticks later.
abbrev pub clockwork : Processes ℕ ℕ
clockwork = record {
  exists = λ w path. true;
  which = λ w name. some "/usr/bin/sing-box";
  spawn = λ c w. (ok w, w + 1);
  kill = λ child w. (ok tt, w);
  wait = λ child w. w;
  try_wait = λ child w. (ok (if leb (child + 2) w then some (some (pos 3)) else none), w);
  output = λ c w. (ok (record { success = true; stderr = "" }), w);
  trim = λ s. s;
  i32_text = λ z. "3";
}

abbrev demo : ProcessCoreSpec
demo = new_spec "demo" "/bin/demo"

abbrev after_start : System ℕ ℕ
after_start = record {
  core = record { spec = demo; state = connected; child = some 0; events = []; receiver = true };
  world = 5;
  caller = outside;
  reapers = asleep ∷ [];
  spawned = 1;
  stopped = 0;
  reaped = 0;
}

to_after_start : Reach clockwork (begin demo 0) after_start
unfolding begin may_start new_core spawn_process resolve_binary contains_char set_state new_spec
    set_child
to_after_start =
    next
      (next
        (next
          (next (next (next here (check "a.json" refl refl)) (connect "a.json" refl))
            (spawn "a.json" 0 1 refl refl))
          (store 0 refl))
        (enter refl))
      (elsewhere 5)

threads-Accounted_example : Accounted after_start
threads-Accounted_example = threads-Accounted clockwork demo 0 to_after_start

threads-Noticed_example : Noticed clockwork after_start (some (pos 3))
threads-Noticed_example =
    threads-Noticed clockwork demo 0 5 after_start 0 (some (pos 3)) (λ child w e. λ h. cc)
      to_after_start refl refl refl

-- The reaper finds that the process has exited, and has not written the state yet.
abbrev late : System ℕ ℕ
late = record after_start {
  core = record after_start.core { child = none };
  reapers = holds (pos 3) ∷ [];
  reaped = 1;
}

abbrev day : List (Call ℕ)
day = start_with "a.json" ∷ changes 2 ∷ reap ∷ restart_with "b.json" ∷ stop_it ∷ []

run_calls-Agrees_example :
    Agrees
      (last_failed clockwork day (new_core demo) 0 false)
      (run_calls clockwork day (new_core demo) 0)
run_calls-Agrees_example = run_calls-Agrees clockwork demo day 0

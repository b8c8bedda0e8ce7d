-- ===== src/Examples/Mocks.antt =====
-- A session with a mock core.
use pingling.Prelude.{◌≡◌, refl, List, [], ◌∷◌}
use pingling.Domain.State.{disconnected, connecting, connected, disconnecting, is_active}
use pingling.Mocks.Core.{
  new_core, start, stop, kill, subscribe, status, bring_up, bring_down, send_log, emit_state,
}
use pingling.Mocks.Core.Paths.{Call, do_start, do_stop, do_kill, do_subscribe, run_calls, states}

abbrev session : List Call
session = do_subscribe ∷ do_start "/tmp/c.json" ∷ do_start "again" ∷ do_stop ∷ do_kill ∷ []

session-states :
    states (run_calls new_core session).events
    ≡ connecting ∷ connected ∷ disconnecting ∷ disconnected ∷ []
unfolding run_calls new_core start stop kill subscribe status is_active bring_up bring_down send_log
    emit_state
session-states = refl

-- ===== src/Mocks/Core.antt =====
-- `MockCore` of crates/mocks/core-mock/src/lib.rs.
--
-- The channel is the list of the events sent so far, whether or not they were received, and whether
-- the receiver is still there to be taken. The lines of the process log (`info!`) are left out.
pub mod Paths
use pingling.Prelude.{
  String, List, [], ◌∷◌, ◌++◌, Bool, true, false, Result, ok, err, if◌then◌else◌, not,
}
use pingling.Prelude.Text.{is_empty}
use pingling.Domain.Error.{VpnError, invalid_configuration, already_connected, not_connected}
use pingling.Domain.State.{
  ConnectionState, disconnected, connecting, connected, disconnecting, is_active, CoreEvent,
  CoreInfo, PrerequisiteCheck, log, state_changed,
}

pub record MockCore : Type 0 where
  pub state : ConnectionState
  pub events : List CoreEvent
  pub receiver : Bool

unfoldable pub new_core : MockCore
new_core = record { state = disconnected; events = []; receiver = true }

unfoldable pub send_log : MockCore → String → MockCore
send_log m msg = record m { events = m.events ++ log msg ∷ [] }

unfoldable pub emit_state : MockCore → ConnectionState → MockCore
emit_state m state = record m { state = state; events = m.events ++ state_changed state ∷ [] }

unfoldable pub status : MockCore → ConnectionState
status m = m.state

-- What `start` does after its checks.
unfoldable pub bring_up : MockCore → MockCore
bring_up m =
    let requested = emit_state (send_log m "[mock] start requested") connecting in
    let engine = send_log requested "[mock] initializing core engine" in
    let socks = send_log engine "[mock] binding to 127.0.0.1:1080 (socks)" in
    let http = send_log socks "[mock] binding to 127.0.0.1:8080 (http)" in
    emit_state (send_log http "[mock] connected (simulated)") connected

unfoldable pub bring_down : MockCore → MockCore
bring_down m =
    let requested = emit_state (send_log m "[mock] stop requested") disconnecting in
    send_log (emit_state requested disconnected) "[mock] disconnected"

unfoldable pub cut_down : MockCore → MockCore
cut_down m =
    send_log (emit_state (send_log m "[mock] force kill requested") disconnected) "[mock] killed"

unfoldable pub validate_config : MockCore → String → Result (Unit {0}) VpnError
validate_config m config_path =
    if is_empty config_path
    then err (invalid_configuration "config_path must not be empty")
    else ok tt

unfoldable pub start : MockCore → String → Result (Unit {0}) VpnError × MockCore
start m config_path =
    if is_empty config_path
    then (err (invalid_configuration "config_path must not be empty"), m)
    else if is_active (status m)
    then (err already_connected, m)
    else (ok tt, bring_up m)

unfoldable pub stop : MockCore → Result (Unit {0}) VpnError × MockCore
stop m = if not (is_active (status m)) then (err not_connected, m) else (ok tt, bring_down m)

unfoldable pub kill : MockCore → Result (Unit {0}) VpnError × MockCore
kill m = if not (is_active (status m)) then (err not_connected, m) else (ok tt, cut_down m)

-- Whether the receiver is handed out: only once.
unfoldable pub subscribe : MockCore → Bool × MockCore
subscribe m = (m.receiver, record m { receiver = false })

unfoldable pub info : CoreInfo
info = record {
  name = "mock";
  version = "dev";
  supported_protocols = "mock-socks" ∷ "mock-http" ∷ "mock-tun" ∷ [];
}

unfoldable pub check_prerequisites : List PrerequisiteCheck
check_prerequisites =
    record { name = "mock_binary"; passed = true; message = "mock core — no binary required" } ∷ []

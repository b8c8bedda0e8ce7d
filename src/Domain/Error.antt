-- ===== src/Domain/Error.antt =====
-- `VpnError` of crates/domain/src/errors.rs.
use pingling.Prelude.{String, Bool, true, false, [], ◌∷◌}
use pingling.Prelude.Text.{format}

pub data VpnError : Type 0 where
  invalid_configuration process_start_failed process_stop_failed : String → VpnError
  process_kill_failed : String → VpnError
  already_connected not_connected : VpnError
  prerequisite_missing storage_error validation_error : String → VpnError
  core_not_found permission_denied outbound_not_found : String → VpnError
  cancelled : VpnError
  unknown : String → VpnError

abbrev prefixed : String → String → String
prefixed label msg = format (label ∷ msg ∷ [])

unfoldable pub to_string : VpnError → String
to_string (invalid_configuration msg) = prefixed "Invalid configuration: " msg
to_string (process_start_failed msg) = prefixed "Process start failed: " msg
to_string (process_stop_failed msg) = prefixed "Process stop failed: " msg
to_string (process_kill_failed msg) = prefixed "Process kill failed: " msg
to_string already_connected = "Already connected"
to_string not_connected = "Not connected"
to_string (prerequisite_missing msg) = prefixed "Prerequisite missing: " msg
to_string (storage_error msg) = prefixed "Storage error: " msg
to_string (validation_error msg) = prefixed "Validation error: " msg
to_string (core_not_found msg) = prefixed "Core not found: " msg
to_string (permission_denied msg) = prefixed "Permission denied: " msg
to_string (outbound_not_found msg) = prefixed "Outbound not found: " msg
to_string cancelled = "Cancelled"
to_string (unknown msg) = prefixed "Unknown error: " msg

unfoldable pub code : VpnError → String
code (invalid_configuration msg) = "invalid_configuration"
code (process_start_failed msg) = "process_start_failed"
code (process_stop_failed msg) = "process_stop_failed"
code (process_kill_failed msg) = "process_kill_failed"
code already_connected = "already_connected"
code not_connected = "not_connected"
code (prerequisite_missing msg) = "prerequisite_missing"
code (storage_error msg) = "storage_error"
code (validation_error msg) = "validation_error"
code (core_not_found msg) = "core_not_found"
code (permission_denied msg) = "permission_denied"
code (outbound_not_found msg) = "outbound_not_found"
code cancelled = "cancelled"
code (unknown msg) = "unknown"

unfoldable pub recoverable : VpnError → Bool
recoverable (invalid_configuration msg) = false
recoverable (process_start_failed msg) = true
recoverable (process_stop_failed msg) = true
recoverable (process_kill_failed msg) = true
recoverable already_connected = false
recoverable not_connected = false
recoverable (prerequisite_missing msg) = false
recoverable (storage_error msg) = true
recoverable (validation_error msg) = false
recoverable (core_not_found msg) = false
recoverable (permission_denied msg) = true
recoverable (outbound_not_found msg) = true
recoverable cancelled = true
recoverable (unknown msg) = true

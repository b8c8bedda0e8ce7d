-- ===== src/Config/Classify.antt =====
-- `classify_error` of crates/config/pipeline/src/error.rs. `str::to_lowercase`, which goes by
-- Unicode's tables, is the parameter `lower`.
pub mod Reasons
use pingling.Prelude.{
  String, ◌≡◌, refl, List, [], ◌∷◌, Option, none, some, Bool, true, false, any, ◌||◌, if◌then◌else◌,
  Bool-cases, inl, inr,
}
use pingling.Prelude.Text.{contains}
use pingling.Domain.Error.{
  VpnError, to_string, invalid_configuration, process_start_failed, process_stop_failed,
  process_kill_failed, already_connected, not_connected, prerequisite_missing, storage_error,
  validation_error, core_not_found, permission_denied, outbound_not_found, cancelled, unknown,
}
use pingling.Config.Attempt as Attempt
use pingling.Config.Attempt.{
  ErrorKind, dns_failure, tcp_timeout, tcp_refused, tls_handshake, http_error, auth_failure,
  validation, tun_device, timeout, PreviousError,
}

unfoldable pub core_error_kind : VpnError → String
core_error_kind (invalid_configuration m) = "InvalidConfiguration"
core_error_kind (process_start_failed m) = "ProcessStartFailed"
core_error_kind (process_stop_failed m) = "ProcessStopFailed"
core_error_kind (process_kill_failed m) = "ProcessKillFailed"
core_error_kind already_connected = "AlreadyConnected"
core_error_kind not_connected = "NotConnected"
core_error_kind (prerequisite_missing m) = "PrerequisiteMissing"
core_error_kind (storage_error m) = "StorageError"
core_error_kind (validation_error m) = "ValidationError"
core_error_kind (core_not_found m) = "CoreNotFound"
core_error_kind (permission_denied m) = "PermissionDenied"
core_error_kind (outbound_not_found m) = "OutboundNotFound"
core_error_kind cancelled = "Cancelled"
core_error_kind (unknown m) = "Unknown"

unfoldable pub contains_any : String → List String → Bool
contains_any haystack needles = any (contains haystack) needles

-- The arms of the match that look at the text.
unfoldable pub kind_of_text : String → ErrorKind
kind_of_text lower =
    if contains_any lower ("no such host" ∷ "name resolution" ∷ "dns lookup" ∷ [])
    then dns_failure
    else if contains_any lower ("connection refused" ∷ "connection reset" ∷ [])
    then tcp_refused
    else if contains_any lower ("timed out" ∷ "timeout" ∷ [])
    then tcp_timeout
    else if contains_any lower ("tls" ∷ "handshake" ∷ "certificate" ∷ [])
    then tls_handshake
    else if contains_any lower ("401" ∷ "unauthorized" ∷ "403" ∷ "forbidden" ∷ [])
    then auth_failure
    else if contains_any lower ("http" ∷ [])
    then http_error
    else if contains_any lower
        ("tun " ∷ "/dev/net/tun" ∷ "wintun" ∷ "tap adapter" ∷ "adapter create" ∷ [])
    then tun_device
    else Attempt.unknown

unfoldable pub kind_of : VpnError → String → ErrorKind
kind_of (prerequisite_missing m) lower = Attempt.prerequisite_missing
kind_of (permission_denied m) lower = Attempt.permission_denied
kind_of (validation_error m) lower = validation
kind_of (invalid_configuration m) lower = validation
kind_of (process_start_failed m) lower = kind_of_text lower
kind_of (process_stop_failed m) lower = kind_of_text lower
kind_of (process_kill_failed m) lower = kind_of_text lower
kind_of already_connected lower = kind_of_text lower
kind_of not_connected lower = kind_of_text lower
kind_of (storage_error m) lower = kind_of_text lower
kind_of (core_not_found m) lower = kind_of_text lower
kind_of (outbound_not_found m) lower = kind_of_text lower
kind_of cancelled lower = kind_of_text lower
kind_of (unknown m) lower = kind_of_text lower

unfoldable pub classify_error : (String → String) → VpnError → PreviousError
classify_error lower err = record {
  kind = kind_of err (lower (to_string err));
  message = to_string err;
  core_error_kind = core_error_kind err;
}

-- ===== src/Config/Classify/Reasons.antt =====
-- Why an error is of the kind that it is classified as.
use pingling.Prelude.{
  String, ◌≡◌, List, [], ◌∷◌, Option, none, some, true, false, if◌then◌else◌, Bool-cases, inl, inr,
}
use pingling.Domain.Error.{
  VpnError, to_string, invalid_configuration, process_start_failed, process_stop_failed,
  process_kill_failed, already_connected, not_connected, prerequisite_missing, storage_error,
  validation_error, core_not_found, permission_denied, outbound_not_found, cancelled, unknown,
}
use pingling.Config.Attempt as Attempt
use pingling.Config.Attempt.{
  ErrorKind, dns_failure, tcp_timeout, tcp_refused, tls_handshake, http_error, auth_failure,
  validation, tun_device,
}
use pingling.Config.Classify.{contains_any, kind_of_text, kind_of, classify_error}

-- The kinds that a text can show, each with its phrases, the first to be looked for first.
abbrev pub phrases : List (ErrorKind × List String)
phrases =
    (dns_failure, "no such host" ∷ "name resolution" ∷ "dns lookup" ∷ [])
    ∷ (tcp_refused, "connection refused" ∷ "connection reset" ∷ [])
    ∷ (tcp_timeout, "timed out" ∷ "timeout" ∷ [])
    ∷ (tls_handshake, "tls" ∷ "handshake" ∷ "certificate" ∷ [])
    ∷ (auth_failure, "401" ∷ "unauthorized" ∷ "403" ∷ "forbidden" ∷ [])
    ∷ (http_error, "http" ∷ [])
    ∷ (tun_device, "tun " ∷ "/dev/net/tun" ∷ "wintun" ∷ "tap adapter" ∷ "adapter create" ∷ [])
    ∷ []

-- The first kind of which a text has a phrase, or `unknown`.
pub data Found (text : String) : List (ErrorKind × List String) → ErrorKind → Type 0 where
  here :
      (k : ErrorKind) (needles : List String) (rest : List (ErrorKind × List String))
      → contains_any text needles ≡ true
      → Found text ((k, needles) ∷ rest) k
  later :
      (j k : ErrorKind) (needles : List String) (rest : List (ErrorKind × List String))
      → contains_any text needles ≡ false
      → Found text rest k
      → Found text ((j, needles) ∷ rest) k
  nowhere : Found text [] Attempt.unknown

-- The kinds that need no text.
abbrev pub fixed_kind : VpnError → Option ErrorKind
fixed_kind (prerequisite_missing m) = some Attempt.prerequisite_missing
fixed_kind (permission_denied m) = some Attempt.permission_denied
fixed_kind (validation_error m) = some validation
fixed_kind (invalid_configuration m) = some validation
fixed_kind (process_start_failed m) = none
fixed_kind (process_stop_failed m) = none
fixed_kind (process_kill_failed m) = none
fixed_kind already_connected = none
fixed_kind not_connected = none
fixed_kind (storage_error m) = none
fixed_kind (core_not_found m) = none
fixed_kind (outbound_not_found m) = none
fixed_kind cancelled = none
fixed_kind (unknown m) = none

pub data Reason (text : String) : Option ErrorKind → ErrorKind → Type 0 where
  by_variant : (k : ErrorKind) → Reason text (some k) k
  by_text : (k : ErrorKind) → Found text phrases k → Reason text none k

if-Found :
    (text : String) (k : ErrorKind) (needles : List String) (rest : List (ErrorKind × List String))
    (other : ErrorKind)
    → Found text rest other
    → Found text ((k, needles) ∷ rest) (if contains_any text needles then k else other)
if-Found text k needles rest other h = elim (Bool-cases (contains_any text needles)) [
  | inl e ↦ rw e (here k needles rest e)
  | inr e ↦ rw e (later k other needles rest e h)
]

kind_of_text-Found : (text : String) → Found text phrases (kind_of_text text)
unfolding kind_of_text
kind_of_text-Found t = if-Found t _ _ _ _ (
    if-Found t _ _ _ _ (
      if-Found t _ _ _ _ (
        if-Found t _ _ _ _ (if-Found t _ _ _ _ (if-Found t _ _ _ _ (if-Found t _ _ _ _ nowhere))))))

-- An error is classified by its variant where that tells enough, and else by the first kind of
-- which its text in lower case has a phrase; it is `unknown` when there is none.
pub classify_error-Reason :
    (lower : String → String) (e : VpnError)
    → Reason (lower (to_string e)) (fixed_kind e) (classify_error lower e).kind
unfolding classify_error kind_of
classify_error-Reason lower (prerequisite_missing m) = by_variant _
classify_error-Reason lower (permission_denied m) = by_variant _
classify_error-Reason lower (validation_error m) = by_variant _
classify_error-Reason lower (invalid_configuration m) = by_variant _
classify_error-Reason lower (process_start_failed m) = by_text _ (kind_of_text-Found _)
classify_error-Reason lower (process_stop_failed m) = by_text _ (kind_of_text-Found _)
classify_error-Reason lower (process_kill_failed m) = by_text _ (kind_of_text-Found _)
classify_error-Reason lower already_connected = by_text _ (kind_of_text-Found _)
classify_error-Reason lower not_connected = by_text _ (kind_of_text-Found _)
classify_error-Reason lower (storage_error m) = by_text _ (kind_of_text-Found _)
classify_error-Reason lower (core_not_found m) = by_text _ (kind_of_text-Found _)
classify_error-Reason lower (outbound_not_found m) = by_text _ (kind_of_text-Found _)
classify_error-Reason lower cancelled = by_text _ (kind_of_text-Found _)
classify_error-Reason lower (unknown m) = by_text _ (kind_of_text-Found _)

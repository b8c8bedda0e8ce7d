-- ===== src/Config/Attempt.antt =====
-- What a processor is told of an attempt: crates/config/pipeline/src/attempt.rs, and the error
-- envelope of src/error.rs.
use pingling.Prelude.{ℕ, String, Option, Bool}
use pingling.Config.Strategy.{ConnectionStrategy}

pub data ErrorKind : Type 0 where
  dns_failure tcp_timeout tcp_refused tls_handshake http_error auth_failure : ErrorKind
  validation tun_device permission_denied prerequisite_missing timeout unknown : ErrorKind

pub record PreviousError : Type 0 where
  pub kind : ErrorKind
  pub message : String
  pub core_error_kind : String

pub record AttemptInfo : Type 0 where
  pub strategy : ConnectionStrategy
  pub attempt_number : ℕ
  pub previous_error : Option PreviousError

pub record ConfigRequest : Type 0 where
  pub with_host_dns : Bool
  pub default_dns_server : Option String
  pub attempt : AttemptInfo

-- ===== src/Examples/Config.antt =====
-- The processor pipeline and the retry policies at concrete inputs.
use pingling.Prelude.Text.{contains, strip_prefix, format}
use pingling.Domain.Error.{process_start_failed, to_string}
use pingling.Config.Attempt.{dns_failure}
use pingling.Config.Classify.{contains_any, kind_of_text, kind_of, classify_error}
use pingling.Prelude.{ℕ, ◌+◌, ◌*◌, ◌^◌, ◌-◌, min, ◌≡◌, refl, [], ◌∷◌, ok, err, none, false, arith}
use pingling.Prelude.Text.{format}
use pingling.Config.Strategy.{
  system, doh, RetryPolicy, no_retry, exponential, delay_for, retry_delay, checked_shl_one,
  checked_mul, u32_max,
}
use pingling.Config.Strategy.Delays.{delay_for-exponential}
use pingling.Config.Attempt.{ConfigRequest}
use pingling.Config.Processors.{
  ConfigProcessor, ProcessorPipeline, process_with, process_all, processor_error,
}
use pingling.Config.Processors.Steps.{Trace, process_with-Trace}

abbrev pub request : ConfigRequest
request = record {
  with_host_dns = false;
  default_dns_server = none;
  attempt = record {
    strategy = record {
      id = "test";
      stack = system;
      resolver_type = doh;
      total_timeout = 30000000000;
      retry = no_retry;
    };
    attempt_number = 1;
    previous_error = none;
  };
}

abbrev add : ℕ → ConfigProcessor ℕ
add n = record { name = "add"; process = λ config r. ok (config + n) }

abbrev dns : ConfigProcessor ℕ
dns = record { name = "dns"; process = λ config r. err "no dns section" }

abbrev add_then_fail : ProcessorPipeline ℕ
add_then_fail = record { processors = add 2 ∷ dns ∷ add 3 ∷ [] }

add_then_fail_run : process_with add_then_fail 5 request ≡ (
  err "processor[dns]: no dns section",
  record { processor_name = "add"; input = 5; output = 7 } ∷ [],
)
unfolding process_with process_all processor_error format
add_then_fail_run = refl

process_with-Trace_example :
    Trace request add_then_fail.processors 5
      (process_with add_then_fail 5 request).0
      (process_with add_then_fail 5 request).1
process_with-Trace_example = process_with-Trace request add_then_fail 5

-- one millisecond, at most an hour
abbrev patient : RetryPolicy
patient = exponential 50 1000000 3600000000000

patient_third : delay_for patient 3 ≡ 2000000
unfolding delay_for retry_delay checked_shl_one checked_mul
patient_third = refl

delay_for-exponential_example :
    delay_for (exponential 50 1 3600000000000) 40
    ≡ min (1 * min (2 ^ (40 - 2)) u32_max) 3600000000000
delay_for-exponential_example =
    delay_for-exponential 50 1 3600000000000 40 (omega arith) (omega arith)

no_host : (classify_error (λ s. s) (process_start_failed "no such host")).kind ≡ dns_failure
unfolding classify_error kind_of kind_of_text contains_any contains strip_prefix to_string format
no_host = refl

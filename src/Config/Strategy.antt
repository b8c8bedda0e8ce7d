-- ===== src/Config/Strategy.antt =====
-- Strategies and retry policies of crates/config/pipeline/src/strategy.rs.
--
-- A `Duration` is its number of nanoseconds, which stays below `duration_end`: 2 ^ 64 seconds. An
-- attempt number is a `u32`, which is only compared and lowered.
pub mod Delays
use pingling.Prelude.{
  ℕ, suc, ◌-◌, ◌*◌, ◌^◌, min, max, String, List, Option, none, some, ltb, leb, if◌then◌else◌,
}

pub data StackType : Type 0 where
  system g_visor mixed : StackType

unfoldable pub stack_str : StackType → String
stack_str system = "system"
stack_str g_visor = "gvisor"
stack_str mixed = "mixed"

pub data ResolverType : Type 0 where
  doh tcp udp system_resolver : ResolverType

unfoldable pub resolver_str : ResolverType → String
resolver_str doh = "https"
resolver_str tcp = "tcp"
resolver_str udp = "udp"
resolver_str system_resolver = "local"

abbrev pub Duration : Type 0
Duration = ℕ

abbrev pub duration_end : ℕ
duration_end = 2 ^ 64 * 10 ^ 9

abbrev pub u32_max : ℕ
u32_max = 2 ^ 32 - 1

-- `1u32.checked_shl(exponent)`: nothing from 32 bits on
unfoldable pub checked_shl_one : ℕ → Option ℕ
checked_shl_one exponent = if ltb exponent 32 then some (2 ^ exponent) else none

-- `Duration::checked_mul`
unfoldable pub checked_mul : Duration → ℕ → Option Duration
checked_mul d n = if ltb (d * n) duration_end then some (d * n) else none

-- `Option::unwrap_or`
abbrev pub unwrap_or {ℓ} : {A : Type ℓ} → Option A → A → A
unwrap_or none a = a
unwrap_or (some b) a = b

pub data RetryPolicy : Type 0 where
  no_retry : RetryPolicy
  fixed : (max_attempts : ℕ) (delay : Duration) → RetryPolicy
  exponential : (max_attempts : ℕ) (initial_delay max_delay : Duration) → RetryPolicy

unfoldable pub max_attempts : RetryPolicy → ℕ
max_attempts no_retry = 1
max_attempts (fixed n delay) = max n 1
max_attempts (exponential n initial_delay max_delay) = max n 1

-- The policy's delay from the second attempt on.
unfoldable pub retry_delay : RetryPolicy → ℕ → Duration
retry_delay no_retry next_attempt = 0
retry_delay (fixed n delay) next_attempt = delay
retry_delay (exponential n initial_delay max_delay) next_attempt =
    let multiplier = unwrap_or (checked_shl_one (next_attempt - 2)) u32_max in
    min (unwrap_or (checked_mul initial_delay multiplier) max_delay) max_delay

unfoldable pub delay_for : RetryPolicy → ℕ → Duration
delay_for policy next_attempt = if leb next_attempt 1 then 0 else retry_delay policy next_attempt

pub record ConnectionStrategy : Type 0 where
  pub id : String
  pub stack : StackType
  pub resolver_type : ResolverType
  pub total_timeout : Duration
  pub retry : RetryPolicy

pub record StrategyPlan : Type 0 where
  pub strategies : List ConnectionStrategy
  pub global_timeout : Option Duration

-- ===== src/Config/Strategy/Delays.antt =====
-- The delays between attempts.
use native.Mathlib.Nat.{pow-le-pow_right, mul-le-mul_left}
use pingling.Prelude.{
  ℕ, zero, suc, ◌-◌, ◌*◌, ◌^◌, ◌≤◌, ◌<◌, min, ◌≡◌, refl, ap, arith, ltb, Bool-cases, inl, inr,
}
use pingling.Config.Strategy.{
  Duration, duration_end, u32_max, checked_shl_one, checked_mul, unwrap_or, RetryPolicy, no_retry,
  fixed, exponential, retry_delay, delay_for,
}

one_pos : zero < 2
one_pos = omega arith

pow_le : (i j : ℕ) → i ≤ j → 2 ^ i ≤ 2 ^ j
pow_le i j h = pow-le-pow_right one_pos h

multiplier-min : (e : ℕ) → unwrap_or (checked_shl_one e) u32_max ≡ min (2 ^ e) u32_max
unfolding checked_shl_one
multiplier-min e = elim (Bool-cases (ltb e 32)) [
  | inl small ↦ ground (arith, small, pow_le e 31 (ground (arith, small)))
  | inr large ↦ ground (arith, large, pow_le 32 e (ground (arith, large)))
]

capped_product :
    (d n cap : ℕ) → cap < duration_end → min (unwrap_or (checked_mul d n) cap) cap ≡ min (d * n) cap
unfolding checked_mul
capped_product d n cap h = ground (arith, h)

retry_delay-exponential :
    (attempts : ℕ) (i m : Duration) (n : ℕ)
    → m < duration_end
    → retry_delay (exponential attempts i m) n ≡ min (i * min (2 ^ (n - 2)) u32_max) m
unfolding retry_delay
retry_delay-exponential attempts i m n h =
    rw (← capped_product i (min (2 ^ (n - 2)) u32_max) m h)
      (ap (λ f. min (unwrap_or (checked_mul i f) m) m) (multiplier-min (n - 2)))

-- An exponential policy waits `initial_delay * 2 ^ (n - 2)` before attempt `n`, up to `max_delay`,
-- with the factor held at 2 ^ 32 - 1; `max_delay` is a duration.
pub delay_for-exponential :
    (attempts : ℕ) (initial_delay max_delay : Duration) (n : ℕ)
    → max_delay < duration_end
    → 2 ≤ n
    → delay_for (exponential attempts initial_delay max_delay) n
      ≡ min (initial_delay * min (2 ^ (n - 2)) u32_max) max_delay
unfolding delay_for
delay_for-exponential attempts i m n h later =
    ground (arith, later, retry_delay-exponential attempts i m n h)

-- The delay after which an exponential policy does not grow is a duration.
abbrev pub IsInRange : RetryPolicy → Type 0
IsInRange (exponential n initial_delay max_delay) = max_delay < duration_end
IsInRange _ = Unit

retry_delay_mono : (p : RetryPolicy) (n : ℕ) → IsInRange p → retry_delay p n ≤ retry_delay p (suc n)
unfolding retry_delay
retry_delay_mono no_retry n h = omega arith
retry_delay_mono (fixed k delay) n h = omega arith
retry_delay_mono (exponential k i m) n h =
    let step = pow_le (n - 2) (suc n - 2) (omega arith) in
    let factor : min (2 ^ (n - 2)) u32_max ≤ min (2 ^ (suc n - 2)) u32_max = ground (arith, step) in
    let product = mul-le-mul_left i factor in
    rw (retry_delay-exponential k i m n h, retry_delay-exponential k i m (suc n) h)
      (ground (arith, product))

-- No policy waits less before a later attempt, and none waits before the first; the cap of an
-- exponential policy is a duration.
pub delay_for_mono :
    (p : RetryPolicy) (n : ℕ)
    → IsInRange p
    → (delay_for p n ≤ delay_for p (suc n)) × (delay_for p 1 ≡ 0)
unfolding delay_for
delay_for_mono p n h = (ground (arith, retry_delay_mono p n h), refl)

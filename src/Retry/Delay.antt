-- ===== src/Retry/Delay.antt =====
-- What the delay between two attempts is.
use Prim.Native.Nat.{min}
use x2ssh.Base.{ℕ, ◌*◌, ◌^◌, ◌≤◌, ◌<◌, ◌≡◌, ap, arith, lt→ltb}
use x2ssh.Base.Int.{pos}
use x2ssh.Retry.Float.{F64, IsFloat}
use x2ssh.Retry.{RetryPolicy, from_millis, as_millis, as_i32, delay_for_attempt}

module _ (F : F64) (L : IsFloat F) where
  -- For any backoff, a NaN or an infinity included, no delay passes `max_delay`, if that is at
  -- most 2^53 milliseconds.
  pub delay_for_attempt-le :
      (policy : RetryPolicy F) (attempt : ℕ)
      → as_millis policy.max_delay ≤ 2 ^ 53
      → delay_for_attempt F policy attempt ≤ policy.max_delay
  unfolding delay_for_attempt
  delay_for_attempt-le policy attempt h =
      let m = as_millis policy.max_delay in
      let x =
        F.mul (F.of_nat (as_millis policy.initial_delay))
          (F.powi policy.backoff (as_i32 attempt)) in
      omega (
        arith,
        L.to_u64_mono (F.min x (F.of_nat m)) (F.of_nat m) (L.min-le_right x m),
        L.to_u64-of_nat m h,
      )

  -- With a whole number b as backoff, attempt n waits for min(initial * b^n, max) milliseconds, if
  -- `powi` gives the power exactly, and as long as these numbers are at most 2^53 and n is below
  -- 2^31.
  pub delay_for_attempt_exact :
      (policy : RetryPolicy F) (b attempt : ℕ)
      → attempt < 2 ^ 31
      → policy.backoff ≡ F.of_nat b
      → F.powi (F.of_nat b) (pos attempt) ≡ F.of_nat (b ^ attempt)
      → as_millis policy.initial_delay * b ^ attempt ≤ 2 ^ 53
      → as_millis policy.max_delay ≤ 2 ^ 53
      → delay_for_attempt F policy attempt
        ≡ from_millis
            (min (as_millis policy.initial_delay * b ^ attempt) (as_millis policy.max_delay))
  unfolding delay_for_attempt
  delay_for_attempt_exact policy b attempt small whole hp hd hm =
      let d = as_millis policy.initial_delay in
      let m = as_millis policy.max_delay in
      rw
        (
          lt→ltb attempt (2 ^ 31) small,
          whole,
          hp,
          L.mul-of_nat d (b ^ attempt) hd,
          L.min-of_nat (d * b ^ attempt) m hd hm,
        )
        (ap from_millis (L.to_u64-of_nat (min (d * b ^ attempt) m) (omega arith)))

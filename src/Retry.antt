-- ===== src/Retry.antt =====
-- x2ssh/src/retry.rs: the retry policy. Its floats (`f64`) are a parameter.
pub mod Float
pub mod Delay
use x2ssh.Base.{ℕ, ◌+◌, ◌-◌, ◌*◌, ◌/◌, ◌^◌, Bool, true, Option, none, some, ltb, if◌then◌else◌}
use x2ssh.Base.Int.{ℤ, pos, negsuc}
use x2ssh.Retry.Float.{F64}

-- `std::time::Duration`, as its nanoseconds.
abbrev pub Duration : Type 0
Duration = ℕ

abbrev pub from_millis : ℕ → Duration
from_millis ms = ms * 1_000_000

abbrev pub as_millis : Duration → ℕ
as_millis d = d / 1_000_000

-- `attempt as i32` of a u32: the upper half wraps to the negative numbers.
abbrev pub as_i32 : ℕ → ℤ
as_i32 n = if ltb n (2 ^ 31) then pos n else negsuc (2 ^ 32 - 1 - n)

pub record RetryPolicy (F : F64) : Type 0 where
  pub max_attempts : Option ℕ
  pub initial_delay : Duration
  pub backoff : F.Num
  pub max_delay : Duration

module _ (F : F64) where
  unfoldable pub default : RetryPolicy F
  default = record {
    max_attempts = none;
    initial_delay = from_millis 1000;
    backoff = F.of_nat 2;
    max_delay = from_millis 30000;
  }

  unfoldable pub delay_for_attempt : RetryPolicy F → ℕ → Duration
  delay_for_attempt policy attempt =
      let delay_ms =
        F.mul (F.of_nat (as_millis policy.initial_delay))
          (F.powi policy.backoff (as_i32 attempt)) in
      from_millis (F.to_u64 (F.min delay_ms (F.of_nat (as_millis policy.max_delay))))

  unfoldable pub should_retry : RetryPolicy F → ℕ → Bool
  should_retry policy attempt = elim policy.max_attempts [
    | some max ↦ ltb attempt max
    | none ↦ true
  ]

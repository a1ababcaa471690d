-- ===== src/UnitTests/Backoff.antt =====
-- x2ssh/src/retry.rs: its tests, for every f64 with the documented behaviour whose small powers of
-- two are exact.
use x2ssh.Base.{ℕ, ◌≤◌, ◌^◌, ◌≡◌, refl, Bool, true, ◌&&◌, ◌==◌, not, some, arith}
use x2ssh.Retry.{from_millis, default, delay_for_attempt, should_retry}
use x2ssh.Base.Int.{pos}
use x2ssh.Retry.Float.{F64, IsFloat}
use x2ssh.Retry.Delay.{delay_for_attempt_exact}

module _ (F : F64) where
  test_backoff_calculation : Bool
  unfolding default delay_for_attempt
  test_backoff_calculation =
      let policy = default F in
      delay_for_attempt F policy 0 == from_millis 1000
      && (delay_for_attempt F policy 1 == from_millis 2000
          && (delay_for_attempt F policy 2 == from_millis 4000
              && delay_for_attempt F policy 3 == from_millis 8000))

  test_max_delay_cap : Bool
  test_max_delay_cap = let policy = default F in delay_for_attempt F policy 10 == from_millis 30000

  test_max_attempts : Bool
  test_max_attempts =
      let policy = record (default F) { max_attempts = some 3 } in
      should_retry F policy 0
      && (should_retry F policy 1 && (should_retry F policy 2 && not (should_retry F policy 3)))

  test_infinite_retry : Bool
  test_infinite_retry =
      let policy = default F in
      should_retry F policy 0 && (should_retry F policy 100 && should_retry F policy 1000)

  test_max_attempts_passes : test_max_attempts ≡ true
  unfolding test_max_attempts should_retry
  test_max_attempts_passes = refl

  test_infinite_retry_passes : test_infinite_retry ≡ true
  unfolding test_infinite_retry should_retry default
  test_infinite_retry_passes = refl

  module _ (L : IsFloat F)
      (powers : (n : ℕ) → n ≤ 10 → F.powi (F.of_nat 2) (pos n) ≡ F.of_nat (2 ^ n)) where
    test_backoff_calculation_passes : test_backoff_calculation ≡ true
    unfolding test_backoff_calculation default
    test_backoff_calculation_passes =
        let delay = λ (n : ℕ). delay_for_attempt_exact F L (default F) 2 n in
        rw
          (
            delay 0 (omega arith) refl (powers 0 (omega arith)) (omega arith) (omega arith),
            delay 1 (omega arith) refl (powers 1 (omega arith)) (omega arith) (omega arith),
            delay 2 (omega arith) refl (powers 2 (omega arith)) (omega arith) (omega arith),
            delay 3 (omega arith) refl (powers 3 (omega arith)) (omega arith) (omega arith),
          )
          refl

    test_max_delay_cap_passes : test_max_delay_cap ≡ true
    unfolding test_max_delay_cap default
    test_max_delay_cap_passes =
        rw
          (delay_for_attempt_exact F L (default F) 2 10 (omega arith) refl (powers 10 (omega arith))
            (omega arith) (omega arith))
          refl

-- ===== src/Transport/Reconnect.antt =====
-- `reconnect` against the sequence of attempts: which one ends it, and with what.
use x2ssh.Base.{ℕ, zero, suc, ◌+◌, ◌%◌, ◌^◌, ◌≤◌, ◌<◌, ◌≡◌, ◌≢◌, sym, ap, ◌∙◌, arith}
use x2ssh.Base.{true, false, ltb, none, some, lt→ltb, le→ltb, lt-or-le}
use x2ssh.Base.{Error, Result, ok, err, Result-cases, inl, inr}
use x2ssh.Ssh.{Ssh}
use x2ssh.Retry.{Duration, RetryPolicy, delay_for_attempt, should_retry}
use x2ssh.Retry.Float.{F64}
use x2ssh.Transport.{Transport, connect_once, reconnect_loop, reconnect}

module _ (F : F64) {W : Type 0} (S : Ssh W) (sleep : Duration → W → W) (self : Transport F S) where
  abbrev policy : RetryPolicy F
  policy = self.config.retry_policy

  abbrev attempt_in : W → Result S.Handle × W
  attempt_in w = connect_once F S self.config w

  -- The world after attempt `a` has failed and its delay is over.
  abbrev pub next_world : ℕ → W → W
  next_world a w = sleep (delay_for_attempt F policy a) (attempt_in w).1

  -- The world after `k` such attempts, the first of them numbered `a`.
  abbrev pub world_after : ℕ → ℕ → W → W
  world_after zero a w = w
  world_after (suc k) a w = world_after k (a + 1) (next_world a w)

  -- `k` attempts from number `a` on all fail, and the policy allows another after each.
  abbrev pub Fails : ℕ → ℕ → W → Type 0
  Fails zero a w = Unit {0}
  Fails (suc k) a w =
      (should_retry F policy a ≡ true)
      × ((e : Error) × ((attempt_in w).0 ≡ err e))
      × Fails k (a + 1) (next_world a w)

  loop-ok :
      (k a fuel : ℕ) (w : W) (session : S.Handle)
      → Fails k a w
      → (attempt_in (world_after k a w)).0 ≡ ok session
      → k < fuel
      → a + k < 2 ^ 32
      → reconnect_loop F S sleep fuel self a w
        ≡ (some (ok tt), record self { session = session }, (attempt_in (world_after k a w)).1)
  unfolding reconnect_loop
  loop-ok k a zero w session fails h enough small = elim enough [ ]
  loop-ok zero a (suc fuel) w session fails h enough small = rw (h, reconnect_loop)
  loop-ok (suc k) a (suc fuel) w session (again, (e, failed), fails) h enough small =
      let next : (a + 1) % 2 ^ 32 ≡ a + 1 = omega arith in
      rw (failed, reconnect_loop, again, next)
        (loop-ok k (a + 1) fuel (next_world a w) session fails h (omega arith) (omega arith))

  loop-err :
      (k a fuel : ℕ) (w : W) (e : Error)
      → Fails k a w
      → (attempt_in (world_after k a w)).0 ≡ err e
      → should_retry F policy (a + k) ≡ false
      → k < fuel
      → a + k < 2 ^ 32
      → reconnect_loop F S sleep fuel self a w
        ≡ (some (err e), self, (attempt_in (world_after k a w)).1)
  unfolding reconnect_loop
  loop-err k a zero w e fails h stop enough small = elim enough [ ]
  loop-err zero a (suc fuel) w e fails h stop enough small =
      let same : a + 0 ≡ a = omega arith in
      let stop' = ap (should_retry F policy) (sym same) ∙ stop in rw (h, reconnect_loop, stop')
  loop-err (suc k) a (suc fuel) w e (again, (e', failed), fails) h stop enough small =
      let next : (a + 1) % 2 ^ 32 ≡ a + 1 = omega arith in
      let same : a + 1 + k ≡ a + suc k = omega arith in
      rw (failed, reconnect_loop, again, next)
        (loop-err k (a + 1) fuel (next_world a w) e fails h (ap (should_retry F policy) same ∙ stop)
          (omega arith) (omega arith))

  should_retry-some : (m a : ℕ) → policy.max_attempts ≡ some m → should_retry F policy a ≡ ltb a m
  unfolding should_retry
  should_retry-some m a h = rw h

  loop-ne-none :
      (m a fuel : ℕ) (w : W)
      → policy.max_attempts ≡ some m
      → m < 2 ^ 32
      → a ≤ m
      → m < a + fuel
      → (reconnect_loop F S sleep fuel self a w).0 ≢ none
  unfolding reconnect_loop
  loop-ne-none m a zero w hm small ha enough = absurd (omega arith)
  loop-ne-none m a (suc fuel) w hm small ha enough = elim (Result-cases (attempt_in w).0) [
    | inl (session, q) ↦ rw (q, reconnect_loop) (λ e. cc)
    | inr (e, q) ↦ elim (lt-or-le a m) [
      | inl more ↦
          let again = should_retry-some m a hm ∙ lt→ltb a m more in
          let next : (a + 1) % 2 ^ 32 ≡ a + 1 = omega arith in
          rw (q, reconnect_loop, again, next)
            (loop-ne-none m (a + 1) fuel (next_world a w) hm small (omega arith) (omega arith))
      | inr last ↦
          let stop = should_retry-some m a hm ∙ le→ltb a m last in
          rw (q, reconnect_loop, stop) (λ e. cc)
    ]
  ]

  -- `reconnect` makes the first attempt that succeeds the new session, if the policy allowed a
  -- retry after each of the k failures before it; it slept the policy's delay after each.
  pub reconnect-ok :
      (k fuel : ℕ) (w : W) (session : S.Handle)
      → Fails k 0 w
      → (attempt_in (world_after k 0 w)).0 ≡ ok session
      → k < fuel
      → k < 2 ^ 32
      → reconnect F S sleep fuel self w
        ≡ (some (ok tt), record self { session = session }, (attempt_in (world_after k 0 w)).1)
  unfolding reconnect
  reconnect-ok k fuel w session fails h enough small =
      loop-ok k 0 fuel w session fails h enough (omega arith)

  -- With at most m retries allowed, `reconnect` gives up after m + 1 failures: it returns the last
  -- error and keeps the old session.
  pub reconnect-err :
      (m fuel : ℕ) (w : W) (e : Error)
      → policy.max_attempts ≡ some m
      → Fails m 0 w
      → (attempt_in (world_after m 0 w)).0 ≡ err e
      → m < fuel
      → m < 2 ^ 32
      → reconnect F S sleep fuel self w ≡ (some (err e), self, (attempt_in (world_after m 0 w)).1)
  unfolding reconnect
  reconnect-err m fuel w e hm fails h enough small =
      loop-err m 0 fuel w e fails h
        (should_retry-some m (0 + m) hm ∙ le→ltb (0 + m) m (omega arith)) enough (omega arith)

  -- With a limit m on the retries, m + 1 rounds are enough: `reconnect` returns.
  pub reconnect-ne-none :
      (m fuel : ℕ) (w : W)
      → policy.max_attempts ≡ some m
      → m < 2 ^ 32
      → m < fuel
      → (reconnect F S sleep fuel self w).0 ≢ none
  unfolding reconnect
  reconnect-ne-none m fuel w hm small enough =
      loop-ne-none m 0 fuel w hm small (omega arith) (omega arith)

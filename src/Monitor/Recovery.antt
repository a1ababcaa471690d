-- ===== src/Monitor/Recovery.antt =====
-- The health monitor brings a lost session back, and stops when it is told to.
use x2ssh.Base.{ℕ, zero, suc, ◌<◌, ◌^◌, ◌≡◌, refl, ap, ◌∙◌, List, [], ◌∷◌, Bool, true, false}
use x2ssh.Base.{
  some, Option-cases, Bool-cases, Error, ok, err, Result-cases, inl, inr, if◌then◌else◌,
}
use x2ssh.Ssh.{Ssh}
use x2ssh.Retry.{Duration, should_retry}
use x2ssh.Retry.Float.{F64}
use x2ssh.Transport.{Transport, connect_once, check_alive, reconnect, reconnect_loop}
use x2ssh.Transport.Reconnect.{Fails, world_after, reconnect-ok, reconnect-ne-none}
use x2ssh.Monitor.{Occurrence, tick, shutdown, watching, stopped, health_monitor}

abbrev pub has_shutdown : List Occurrence → Bool
has_shutdown [] = false
has_shutdown (tick ∷ es) = has_shutdown es
has_shutdown (shutdown ∷ es) = true

module _ (F : F64) {W : Type 0} (S : Ssh W) (sleep : Duration → W → W) (fuel : ℕ) where
  -- A tick that finds the connection lost, and k failures to connect that the policy retries before
  -- a success, leave the monitor in its loop with the new session.
  pub health_monitor-recovers :
      (k : ℕ) (es : List Occurrence) (self : Transport F S) (w w' : W) (e : Error)
      (session : S.Handle)
      → check_alive F S self w ≡ (err e, w')
      → Fails F S sleep self k 0 w'
      → (connect_once F S self.config (world_after F S sleep self k 0 w')).0 ≡ ok session
      → k < fuel
      → k < 2 ^ 32
      → health_monitor F S sleep fuel (tick ∷ es) self w
        ≡ health_monitor F S sleep fuel es
            (record self { session = session })
            (connect_once F S self.config (world_after F S sleep self k 0 w')).1
  unfolding health_monitor
  health_monitor-recovers k es self w w' e session lost fails h enough small =
      let found =
        ap (λ x. reconnect F S sleep fuel self x.1) lost
        ∙ reconnect-ok F S sleep self k fuel w' session fails h enough small in
      rw
        (
          ap (λ x. x.0) lost,
          health_monitor,
          ap (λ x. x.0) found,
          ap (λ x. x.1) found,
          ap (λ x. x.2) found,
        )
        refl

  loop-config :
      (n a : ℕ) (self : Transport F S) (w : W)
      → (reconnect_loop F S sleep n self a w).1.config ≡ self.config
  unfolding reconnect_loop
  loop-config zero a self w = refl
  loop-config (suc n) a self w = elim (Result-cases (connect_once F S self.config w).0) [
    | inl (session, q) ↦ rw (q, reconnect_loop) refl
    | inr (e, q) ↦ elim (Bool-cases (should_retry F self.config.retry_policy a)) [
      | inl again ↦ rw (q, reconnect_loop, again) (loop-config n _ self _)
      | inr last ↦ rw (q, reconnect_loop, last) refl
    ]
  ]

  reconnect-config :
      (self : Transport F S) (w : W) → (reconnect F S sleep fuel self w).1.config ≡ self.config
  unfolding reconnect
  reconnect-config self w = loop-config fuel 0 self w

  -- With a limit m on the retries and enough fuel, no reconnection keeps the monitor: it stops when
  -- a shutdown comes, whatever the ticks before it found, and watches until then.
  pub health_monitor-phase :
      (m : ℕ) (es : List Occurrence) (self : Transport F S) (w : W)
      → self.config.retry_policy.max_attempts ≡ some m
      → m < 2 ^ 32
      → m < fuel
      → (health_monitor F S sleep fuel es self w).0
        ≡ (if has_shutdown es then stopped else watching)
  unfolding health_monitor
  health_monitor-phase m [] self w hm small enough = refl
  health_monitor-phase m (shutdown ∷ es) self w hm small enough = refl
  health_monitor-phase m (tick ∷ es) self w hm small enough =
      elim (Result-cases (check_alive F S self w).0) [
        | inl (_, q) ↦ rw (q, health_monitor) (health_monitor-phase m es self _ hm small enough)
        | inr (e, q) ↦
            let w' = (check_alive F S self w).1 in
            elim (Option-cases (reconnect F S sleep fuel self w').0) [
              | inl stuck ↦
                  absurd (reconnect-ne-none F S sleep self m fuel w' hm small enough stuck)
              | inr (_, q₂) ↦
                  rw (q, health_monitor, q₂)
                    (health_monitor-phase m es (reconnect F S sleep fuel self w').1 _
                      (ap (λ c. c.retry_policy.max_attempts) (reconnect-config self w') ∙ hm) small
                      enough)
            ]
      ]

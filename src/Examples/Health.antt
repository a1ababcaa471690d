-- ===== src/Examples/Health.antt =====
-- The health monitor.
use x2ssh.Base.{◌≡◌, refl, [], ◌∷◌, arith, foreign, ok, err, ◌==◌, if◌then◌else◌}
use x2ssh.Ssh.{Ssh}
use x2ssh.Retry.{should_retry}
use x2ssh.Retry.Float.{exact}
use x2ssh.Transport.{Transport, connect_once, check_alive}
use x2ssh.Monitor.{tick, shutdown, stopped, health_monitor}
use x2ssh.Monitor.Recovery.{health_monitor-recovers, health_monitor-phase}
use x2ssh.Examples.World.{World, server}
use x2ssh.Examples.Client.{config, sleep, refusing}

-- Only a session that was made now is alive.
abbrev flaky : Ssh World
flaky = record server {
  channel_open_session = λ h w. if h == 7 then (ok h, w) else (err (foreign 8), w);
}

abbrev self : Transport exact flaky
self = record { session = 3; config = config }

health_monitor-recovers_example :
    health_monitor exact flaky sleep 3 (tick ∷ tick ∷ []) self (refusing 1)
    ≡ health_monitor exact flaky sleep 3 (tick ∷ []) (record self { session = 7 }) (refusing 0)
unfolding connect_once should_retry check_alive
health_monitor-recovers_example =
    health_monitor-recovers exact flaky sleep 3 1 (tick ∷ []) self (refusing 1) (refusing 1) _ 7
      refl (refl, (foreign 2, refl), tt) refl (omega arith) (omega arith)

health_monitor-phase_example :
    (health_monitor exact flaky sleep 3 (tick ∷ tick ∷ shutdown ∷ tick ∷ []) self (refusing 5)).0
    ≡ stopped
health_monitor-phase_example =
    health_monitor-phase exact flaky sleep 3 2 (tick ∷ tick ∷ shutdown ∷ tick ∷ []) self
      (refusing 5) refl (omega arith) (omega arith)

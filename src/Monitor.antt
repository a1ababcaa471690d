-- ===== src/Monitor.antt =====
-- x2ssh/src/main.rs: `health_monitor`.
pub mod Recovery
use x2ssh.Base.{ℕ, List, [], ◌∷◌, none, some, ok, err}
use x2ssh.Ssh.{Ssh}
use x2ssh.Retry.{Duration}
use x2ssh.Retry.Float.{F64}
use x2ssh.Transport.{Transport, check_alive, reconnect}

-- What the `select!` of the loop sees: the next tick, or a change of the shutdown channel.
pub data Occurrence : Type 0 where
  tick : Occurrence
  shutdown : Occurrence

-- Where the monitor is: in the loop, behind it, or in a `reconnect` that has not returned.
pub data Phase : Type 0 where
  watching : Phase
  stopped : Phase
  reconnecting : Phase

module _ (F : F64) {W : Type 0} (S : Ssh W) (sleep : Duration → W → W) (fuel : ℕ) where
  -- The fuel is that of each `reconnect`.
  unfoldable pub health_monitor : List Occurrence → Transport F S → W → Phase × Transport F S × W
  health_monitor [] self w = (watching, self, w)
  health_monitor (shutdown ∷ es) self w = (stopped, self, w)
  health_monitor (tick ∷ es) self w =
      let (alive, w') = check_alive F S self w in
      elim alive [
        | ok _ ↦ health_monitor es self w'
        | err e ↦
            let (result, self', w'') = reconnect F S sleep fuel self w' in
            elim result [ none ↦ (reconnecting, self', w'') | some _ ↦ health_monitor es self' w'' ]
      ]

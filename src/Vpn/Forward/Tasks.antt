-- ===== src/Vpn/Forward/Tasks.antt =====
-- x2ssh/src/vpn/session.rs: `VpnSession::forward`, which runs its two tasks until one of them ends.
-- A turn is one round of a loop; the order of the turns is any.
use x2ssh.Base.{List, Option, none, some, Error, Result, err, run_turns}
use x2ssh.Ssh.{Ssh}
use x2ssh.TunRs.{Tun}
use x2ssh.Vpn.Agent.{Reader}
use x2ssh.Vpn.Forward.{tun_to_agent, agent_to_tun}

-- Which task has the turn: `tun_to_agent` or `agent_to_tun`.
pub data Turn : Type 0 where
  up : Turn
  down : Turn

module _ {W : Type 0} (S : Ssh W) (T : Tun) where
  -- What the tasks share and keep; `result` is that of the task that has ended.
  pub record Forwarding : Type 0 where
    pub device : T.State
    pub reader : Reader
    pub result : Option (Result (Unit {0}))
    pub world : W

  abbrev pub failed_task : Option Error → Option (Result (Unit {0}))
  failed_task none = none
  failed_task (some e) = some (err e)

  unfoldable pub take_turn : S.Channel → Turn → Forwarding → Forwarding
  unfolding tun_to_agent agent_to_tun
  take_turn agent up f =
      let (e, device, world) = tun_to_agent S T 1 agent f.device f.world in
      record f { device = device; world = world; result = failed_task e }
  take_turn agent down f =
      let (result, reader, device) = agent_to_tun T 1 f.reader f.device in
      record f { reader = reader; device = device; result = result }

  -- When a task has ended, the other one is aborted.
  unfoldable pub turns : S.Channel → List Turn → Forwarding → Forwarding
  unfolding take_turn run_turns
  turns agent = run_turns (λ f. f.result) (take_turn agent)

  -- `none` while both tasks run.
  unfoldable pub forward :
      S.Channel → Reader → T.State → List Turn → W → Option (Result (Unit {0})) × W
  unfolding turns
  forward agent reader device ts w =
      let f =
        turns agent ts (record { device = device; reader = reader; result = none; world = w }) in
      (f.result, f.world)

-- ===== src/Vpn/Session/Cleaning.antt =====
-- x2ssh/src/vpn/session.rs: `cleanup` behind its guard, a call at a time, and what runs beside it.
-- `forward` that is dropped, as Ctrl+C does in `run_vpn`, only detaches its two tasks: they go on.
pub mod Steps
pub mod Beside
pub mod Changes
use x2ssh.Base.{
  ℕ, zero, suc, List, [], ◌∷◌, ◌++◌, Bool, true, false, Option, none, some, Str, Error,
}
use x2ssh.Base.{Result, ok, err}
use x2ssh.Net.{IpNets}
use x2ssh.Ssh.{Ssh}
use x2ssh.TunRs.{Tun}
use x2ssh.Retry.Float.{F64}
use x2ssh.Transport.{Transport, exec}
use x2ssh.Config.{VpnConfig}
use x2ssh.Vpn.Agent.{Reader, close}
use x2ssh.Vpn.Forward.{tun_to_agent, agent_to_tun}
use x2ssh.Vpn.Forward.Tasks.{Turn, up, down}
use x2ssh.Vpn.Routing.{RoutingState}
use x2ssh.Vpn.Routing.Commands.{del_default, restore_commands, del_commands}
use x2ssh.Vpn.Session.{Host, VpnSession}

-- What is left of a cleanup: the hooks, with the agent and the routes behind them; the commands of
-- the routing manager; or nothing.
pub data Stage : Type 0 where
  hooks : List Str → Stage
  routes : List (List Str) → Stage
  cleaned : Stage

module _ (F : F64) (N : IpNets) {W : Type 0} (S : Ssh W) (H : Host W) where
  pub record Closing : Type 0 where
    pub stage : Stage
    pub session : VpnSession F N S H
    pub world : W

  -- The calls of `RoutingManager::cleanup`.
  abbrev pub cleanup_commands : RoutingState N → List (List Str)
  cleanup_commands state =
      del_default
      ∷ (restore_commands N state.original_default_route ++ del_commands N state.exclusion_routes)

  -- Behind the calls: if one could not be made, its error is logged and the exclusions are kept.
  abbrev pub cleared : Result (Unit {0}) → RoutingState N → RoutingState N
  cleared (ok _) state = record state { exclusion_routes = [] }
  cleared (err e) state = state

  abbrev pub marked : Result (Unit {0}) → VpnSession F N S H → VpnSession F N S H
  marked r self = record self { routing = cleared r self.routing; cleaned_up = true }

  abbrev pub after_command : Result Str → List (List Str) → VpnSession F N S H → W → Closing
  after_command (ok _) cmds self w = record { stage = routes cmds; session = self; world = w }
  after_command (err e) cmds self w = record {
    stage = cleaned;
    session = marked (err e) self;
    world = w;
  }

  module _ (transport : Transport F S) where
    clean_stage : Stage → VpnSession F N S H → W → Closing
    clean_stage (hooks (cmd ∷ cmds)) self w = record {
      stage = hooks cmds;
      session = self;
      world = (exec F S transport cmd w).1;
    }
    clean_stage (hooks []) self w = record {
      stage = routes (cleanup_commands self.routing);
      session = self;
      world = (close S self.agent.writer w).1;
    }
    clean_stage (routes (cmd ∷ cmds)) self w =
        let (made, w') = H.run_ip cmd w in after_command made cmds self w'
    clean_stage (routes []) self w = record {
      stage = cleaned;
      session = marked (ok tt) self;
      world = w;
    }
    clean_stage cleaned self w = record { stage = cleaned; session = self; world = w }

    -- The next call.
    unfoldable pub clean : Closing → Closing
    unfolding clean_stage
    clean c = clean_stage c.stage c.session c.world

    unfoldable pub clean_steps : ℕ → Closing → Closing
    unfolding clean
    clean_steps zero c = c
    clean_steps (suc n) c = clean_steps n (clean c)

module _ {W : Type 0} (S : Ssh W) (T : Tun) where
  -- The two detached tasks, with what they share.
  pub record Detached : Type 0 where
    pub device : T.State
    pub reader : Reader
    pub up_over : Bool
    pub down_over : Bool

  abbrev pub over : {A : Type 0} → Option A → Bool
  over none = false
  over (some a) = true

  goes_up : S.Channel → Bool → Detached → W → Detached × W
  goes_up agent true d w = (d, w)
  goes_up agent false d w =
      let (e, device, w') = tun_to_agent S T 1 agent d.device w in
      (record d { device = device; up_over = over e }, w')

  goes_down : Bool → Detached → Detached
  goes_down true d = d
  goes_down false d =
      let (result, reader, device) = agent_to_tun T 1 d.reader d.device in
      record d { reader = reader; device = device; down_over = over result }

  -- A round of one of the loops, if that has not ended; the other task does not matter to it.
  unfoldable pub detached_turn : S.Channel → Turn → Detached → W → Detached × W
  unfolding goes_up goes_down
  detached_turn agent up d w = goes_up agent d.up_over d w
  detached_turn agent down d w = (goes_down d.down_over d, w)

-- Who acts: `cleanup`, or a detached task.
pub data Move : Type 0 where
  cleans : Move
  goes_on : Turn → Move

module _ (F : F64) (N : IpNets) {W : Type 0} (S : Ssh W) (H : Host W) (T : Tun)
    (transport : Transport F S) where
  abbrev pub Both : Type 0
  Both = Closing F N S H × Detached S T

  unfoldable pub move : Move → Both → Both
  unfolding clean detached_turn
  move cleans (c, d) = (clean F N S H transport c, d)
  move (goes_on t) (c, d) =
      let (d', w) = detached_turn S T c.session.agent.writer t d c.world in
      (record c { world = w }, d')

  unfoldable pub moves : List Move → Both → Both
  unfolding move
  moves [] b = b
  moves (m ∷ ms) b = moves ms (move m b)

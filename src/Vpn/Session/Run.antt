-- ===== src/Vpn/Session/Run.antt =====
-- x2ssh/src/vpn.rs: `run_vpn` with the tasks of `forward` in its `select!`, and Ctrl+C.
pub mod Begun
pub mod Restores
pub mod Tunnelled
pub mod Stranded
use x2ssh.Base.{ℕ, List, Bool, true, false, Option, none, some, Result, ok, err}
use x2ssh.Net.{IpAddr, IpNets}
use x2ssh.Ssh.{Ssh}
use x2ssh.TunRs.{Tun}
use x2ssh.Retry.Float.{F64}
use x2ssh.Transport.{Transport}
use x2ssh.Config.{VpnConfig}
use x2ssh.Vpn.Forward.Tasks.{Turn, Forwarding, turns}
use x2ssh.Vpn.Session.{Host, VpnSession, check_root, start, cleanup}
use x2ssh.Vpn.Session.Cleaning.{Stage, hooks, routes, cleaned, Closing, Detached, Move, Both, moves}

module _ (F : F64) (N : IpNets) {W : Type 0} (S : Ssh W) (H : Host W) (T : Tun)
    (transport : Transport F S) (config : VpnConfig) where
  -- The session with its tasks started, `device` being the state of its TUN device.
  abbrev pub forwarding : VpnSession F N S H → T.State → W → Forwarding S T
  forwarding session device w = record {
    device = device;
    reader = session.agent.reader;
    result = none;
    world = w;
  }

  -- A cleanup that begins: behind its guard there is nothing left.
  abbrev pub first_stage : Bool → Stage
  first_stage true = cleaned
  first_stage false = hooks config.pre_down

  abbrev pub interrupted : VpnSession F N S H → Forwarding S T → Both F N S H T transport
  interrupted session f = (
    record { stage = first_stage session.cleaned_up; session = session; world = f.world },
    record { device = f.device; reader = f.reader; up_over = false; down_over = false },
  )

  -- `none` while the cleanup runs.
  abbrev pub ended_at : Stage → Option (Result (Unit {0}))
  ended_at cleaned = some (ok tt)
  ended_at (hooks cmds) = none
  ended_at (routes cmds) = none

  -- What comes behind the `select!`. With the result of `forward` both tasks have ended; without
  -- one, it was Ctrl+C that ended the `select!`, and they go on beside the cleanup.
  abbrev pub after_select :
      Option (Result (Unit {0}))
      → VpnSession F N S H
      → List Move
      → Forwarding S T
      → Option (Result (Unit {0})) × W
  after_select (some forwarded) session ms f =
      let (r, _, w) = cleanup F N S H transport config session f.world in (some r, w)
  after_select none session ms f =
      let (c, _) = moves F N S H T transport ms (interrupted session f) in
      (ended_at c.stage, c.world)

  after_start :
      Result (VpnSession F N S H)
      → List Turn
      → List Move
      → T.State
      → W
      → Option (Result (Unit {0})) × W
  after_start (err e) ts ms device w = (some (err e), w)
  after_start (ok session) ts ms device w =
      let f = turns S T session.agent.writer ts (forwarding session device w) in
      after_select f.result session ms f

  after_check :
      Result (Unit {0})
      → IpAddr
      → List Turn
      → List Move
      → T.State
      → W
      → Option (Result (Unit {0})) × W
  unfolding after_start
  after_check (err e) ssh_server_ip ts ms device w = (some (err e), w)
  after_check (ok _) ssh_server_ip ts ms device w =
      let (started, w') = start F N S H transport config ssh_server_ip w in
      after_start started ts ms device w'

  -- `ts` are the turns of the tasks until the `select!` ends, `ms` the moves behind Ctrl+C.
  unfoldable pub run_vpn_tasks :
      ℕ → IpAddr → List Turn → List Move → T.State → W → Option (Result (Unit {0})) × W
  unfolding after_check check_root
  run_vpn_tasks uid ssh_server_ip ts ms device w =
      let (checked, w') = check_root F N S H uid w in
      after_check checked ssh_server_ip ts ms device w'

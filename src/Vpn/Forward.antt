-- ===== src/Vpn/Forward.antt =====
-- x2ssh/src/vpn/session.rs: the two tasks of `VpnSession::forward`.
pub mod Tasks
pub mod Interleaving
pub mod Buffer
use x2ssh.Base.{ℕ, zero, suc, Option, none, some, Error, Result, ok, err}
use x2ssh.Ssh.{Ssh}
use x2ssh.TunRs.{Tun}
use x2ssh.Vpn.Tun.{recv, send}
use x2ssh.Vpn.Agent.{Reader, recv_packet, send_packet}

abbrev pub buffer_size : ℕ
buffer_size = 2048

module _ {W : Type 0} (S : Ssh W) (T : Tun) where
  -- The loop of `tun_to_agent`, for a number of rounds: `none` while it runs.
  unfoldable pub tun_to_agent : ℕ → S.Channel → T.State → W → Option Error × T.State × W
  tun_to_agent zero agent tun w = (none, tun, w)
  tun_to_agent (suc rounds) agent tun w =
      let (received, tun') = recv T buffer_size tun in
      elim received [
        | err e ↦ (some e, tun', w)
        | ok p ↦
            let (sent, w') = send_packet S agent p w in
            elim sent [ err e ↦ (some e, tun', w') | ok _ ↦ tun_to_agent rounds agent tun' w' ]
      ]

module _ (T : Tun) where
  -- The loop of `agent_to_tun`, on fuel: `none` while it runs. A failed `send` is only logged.
  unfoldable pub agent_to_tun : ℕ → Reader → T.State → Option (Result (Unit {0})) × Reader × T.State
  agent_to_tun zero r tun = (none, r, tun)
  agent_to_tun (suc fuel) r tun =
      let (received, r') = recv_packet r in
      elim received [
        | err e ↦ (some (err e), r', tun)
        | ok none ↦ (some (ok tt), r', tun)
        | ok (some p) ↦ agent_to_tun fuel r' (send T p tun).1
      ]

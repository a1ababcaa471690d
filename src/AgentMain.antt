-- ===== src/AgentMain.antt =====
-- x2ssh-agent/src/main.rs: the two tasks that bridge stdin and stdout with the TUN device.
pub mod Start
pub mod Arguments
pub mod Tasks
pub mod Interleaving
use x2ssh.Base.{ℕ, zero, suc, Option, none, some, Error, ok, err}
use x2ssh.Proto.Stream.{AsyncRead, AsyncWrite}
use x2ssh.Proto.Framing.{read_framed, write_framed}
use x2ssh.TunRs.{Tun}

abbrev pub buffer_size : ℕ
buffer_size = 2048

module _ (R : AsyncRead) (T : Tun) where
  -- The loop of `client_to_tun`, on fuel: `none` while it runs, then the error that ended it.
  unfoldable pub client_to_tun : ℕ → R.State → T.State → Option Error × T.State × R.State
  client_to_tun zero stdin tun = (none, tun, stdin)
  client_to_tun (suc fuel) stdin tun =
      let (packet, stdin') = read_framed R stdin in
      elim packet [
        | err e ↦ (some e, tun, stdin')
        | ok p ↦
            let (sent, tun') = T.send p tun in
            elim sent [ err e ↦ (some e, tun', stdin') | ok _ ↦ client_to_tun fuel stdin' tun' ]
      ]

module _ (W : AsyncWrite) (T : Tun) where
  -- The loop of `tun_to_client`, for a number of rounds: `none` while it runs.
  unfoldable pub tun_to_client : ℕ → T.State → W.State → Option Error × T.State × W.State
  tun_to_client zero tun stdout = (none, tun, stdout)
  tun_to_client (suc rounds) tun stdout =
      let (received, tun') = T.recv buffer_size tun in
      elim received [
        | err e ↦ (some e, tun', stdout)
        | ok p ↦
            let (done, stdout') = write_framed W p stdout in
            elim done [ err e ↦ (some e, tun', stdout') | ok _ ↦ tun_to_client rounds tun' stdout' ]
      ]

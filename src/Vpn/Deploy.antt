-- ===== src/Vpn/Deploy.antt =====
-- x2ssh/src/vpn/agent.rs: `deploy` and `start`, which bring the agent to the server and run it.
pub mod Exit
pub mod Deployed
use x2ssh.Base.{ℕ, List, [], ◌∷◌, ◌++◌, Str, codes, ◌==◌, if◌then◌else◌, deploy_failed}
use x2ssh.Base.{Result, ok, err, Exec, pure, raise, ◌>>=◌, ◌>>◌}
use x2ssh.Ssh.{ChannelMsg, data_msg, extended_data, exit_status, eof, other, Ssh}
use x2ssh.Retry.Float.{F64}
use x2ssh.Transport.{Transport, open_session_channel}
use x2ssh.Vpn.Agent.{Reader}

abbrev pub agent_path : Str
agent_path = codes "/tmp/x2ssh-agent"

-- The loop of `deploy` over the messages of the channel, which stops at an end of file.
unfoldable pub deploy_exit : List ChannelMsg → ℕ → ℕ
deploy_exit [] exit_code = exit_code
deploy_exit (exit_status n ∷ ms) exit_code = deploy_exit ms n
deploy_exit (eof ∷ ms) exit_code = exit_code
deploy_exit (data_msg bs ∷ ms) exit_code = deploy_exit ms exit_code
deploy_exit (extended_data bs n ∷ ms) exit_code = deploy_exit ms exit_code
deploy_exit (other ∷ ms) exit_code = deploy_exit ms exit_code

-- Both halves of the channel to the agent.
pub record AgentChannel {W : Type 0} (S : Ssh W) : Type 0 where
  pub reader : Reader
  pub writer : S.Channel

module _ (F : F64) {W : Type 0} (S : Ssh W) where
  -- The binary is built apart and embedded.
  unfoldable pub deploy : List ℕ → Transport F S → Exec W (Unit {0})
  unfolding deploy_exit
  deploy agent_binary transport = do
    channel ← open_session_channel F S transport
    S.exec channel (codes "cat > /tmp/x2ssh-agent && chmod +x /tmp/x2ssh-agent")
    S.send_data channel agent_binary
    S.send_eof channel
    exit_code ← λ w. (ok (deploy_exit (S.inbox channel w) 0), w)
    if exit_code == 0 then pure tt else raise (deploy_failed exit_code)

  unfoldable pub start : Transport F S → Str → Exec W (AgentChannel S)
  start transport server_address = do
    channel ← open_session_channel F S transport
    let cmd = codes "sudo " ++ (agent_path ++ (codes " --ip " ++ server_address))
    S.exec channel cmd
    λ w. (
      ok (record { reader = record { inbox = S.inbox channel w; buffer = [] }; writer = channel }),
      w,
    )

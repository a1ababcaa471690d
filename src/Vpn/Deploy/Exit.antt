-- ===== src/Vpn/Deploy/Exit.antt =====
-- How `deploy` judges the copy of the agent.
use x2ssh.Base.{ℕ, List, [], ◌∷◌, ◌≡◌, refl}
use x2ssh.Ssh.{ChannelMsg, data_msg, extended_data, exit_status, eof, other}
use x2ssh.Transport.Commands.{last_status}
use x2ssh.Vpn.Deploy.{deploy_exit}

abbrev pub before_eof : List ChannelMsg → List ChannelMsg
before_eof [] = []
before_eof (eof ∷ ms) = []
before_eof (data_msg bs ∷ ms) = data_msg bs ∷ before_eof ms
before_eof (extended_data bs n ∷ ms) = extended_data bs n ∷ before_eof ms
before_eof (exit_status n ∷ ms) = exit_status n ∷ before_eof ms
before_eof (other ∷ ms) = other ∷ before_eof ms

-- The exit code of the deployment is the last exit status before the first end of file, or 0 if
-- there is none; a status that comes behind the end of file is not looked at.
pub deploy_exit_lem :
    (ms : List ChannelMsg) (d : ℕ) → deploy_exit ms d ≡ last_status d (before_eof ms)
unfolding deploy_exit
deploy_exit_lem [] d = refl
deploy_exit_lem (eof ∷ ms) d = refl
deploy_exit_lem (data_msg bs ∷ ms) d = deploy_exit_lem ms d
deploy_exit_lem (extended_data bs n ∷ ms) d = deploy_exit_lem ms d
deploy_exit_lem (exit_status n ∷ ms) d = deploy_exit_lem ms n
deploy_exit_lem (other ∷ ms) d = deploy_exit_lem ms d

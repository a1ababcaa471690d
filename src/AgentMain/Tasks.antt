-- ===== src/AgentMain/Tasks.antt =====
-- x2ssh-agent/src/main.rs: the two tasks of `main` under its `select!`. A turn is one round of a loop.
use x2ssh.Base.{List, Option, Error, run_turns}
use x2ssh.Proto.Stream.{AsyncRead, AsyncWrite}
use x2ssh.TunRs.{Tun}
use x2ssh.AgentMain.{client_to_tun, tun_to_client}

-- Which task has the turn.
pub data Side : Type 0 where
  from_client : Side
  from_tun : Side

module _ (R : AsyncRead) (A : AsyncWrite) (T : Tun) where
  -- The two streams, the shared device, and the error of the task that ended first.
  pub record Bridge : Type 0 where
    pub stdin : R.State
    pub stdout : A.State
    pub tun : T.State
    pub failure : Option Error

  unfoldable pub bridge_turn : Side → Bridge → Bridge
  unfolding client_to_tun tun_to_client
  bridge_turn from_client b =
      let (failure, tun, stdin) = client_to_tun R T 1 b.stdin b.tun in
      record b { stdin = stdin; tun = tun; failure = failure }
  bridge_turn from_tun b =
      let (failure, tun, stdout) = tun_to_client A T 1 b.tun b.stdout in
      record b { stdout = stdout; tun = tun; failure = failure }

  -- `main` is over when one of the tasks is.
  unfoldable pub bridge : List Side → Bridge → Bridge
  unfolding bridge_turn run_turns
  bridge = run_turns (λ b. b.failure) bridge_turn

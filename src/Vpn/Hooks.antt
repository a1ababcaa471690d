-- ===== src/Vpn/Hooks.antt =====
-- x2ssh/src/vpn/hooks.rs: the commands that run on the server.
pub mod Order
use x2ssh.Base.{ℕ, List, [], ◌∷◌, Str, is_empty, if◌then◌else◌, Result, ok, err}
use x2ssh.Base.{Exec, pure, ◌>>=◌, ◌>>◌}
use x2ssh.Ssh.{Ssh}
use x2ssh.Retry.Float.{F64}
use x2ssh.Transport.{Transport, ExecResult, exec, exec_success}
use x2ssh.Config.{VpnConfig}

module _ (F : F64) {W : Type 0} (S : Ssh W) (show : List ℕ → Str) (transport : Transport F S) where
  unfoldable pub post_up_loop : List Str → Exec W (Unit {0})
  post_up_loop [] = pure tt
  post_up_loop (cmd ∷ cmds) = do exec_success F S show transport cmd; post_up_loop cmds

  unfoldable pub run_post_up : VpnConfig → Exec W (Unit {0})
  unfolding post_up_loop
  run_post_up config = if is_empty config.post_up then pure tt else post_up_loop config.post_up

module _ (F : F64) {W : Type 0} (S : Ssh W) (transport : Transport F S) where
  -- Each outcome is only logged.
  unfoldable pub pre_down_loop : List Str → W → W
  pre_down_loop [] w = w
  pre_down_loop (cmd ∷ cmds) w = pre_down_loop cmds (exec F S transport cmd w).1

  unfoldable pub run_pre_down : VpnConfig → W → W
  unfolding pre_down_loop
  run_pre_down config w = if is_empty config.pre_down then w else pre_down_loop config.pre_down w

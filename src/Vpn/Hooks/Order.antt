-- ===== src/Vpn/Hooks/Order.antt =====
-- Which hooks run.
use x2ssh.Base.{ℕ, List, [], ◌∷◌, ◌++◌, ◌≡◌, refl, ap, ◌∙◌, Str, Error, ok, err, pure}
use x2ssh.Base.{is_empty, if◌then◌else◌}
use x2ssh.Ssh.{Ssh}
use x2ssh.Retry.Float.{F64}
use x2ssh.Transport.{Transport, exec, exec_success}
use x2ssh.Config.{VpnConfig}
use x2ssh.Vpn.Hooks.{post_up_loop, run_post_up, pre_down_loop, run_pre_down}

module _ (F : F64) {W : Type 0} (S : Ssh W) (show : List ℕ → Str) (transport : Transport F S) where
  -- These commands, one after the other, all succeed, and lead from a world to another.
  pub data Succeed : List Str → W → W → Type 0 where
    done : {w : W} → Succeed [] w w
    more :
        {cmd : Str} {cmds : List Str} {w w₁ w₂ : W}
        → exec_success F S show transport cmd w ≡ (ok tt, w₁)
        → Succeed cmds w₁ w₂
        → Succeed (cmd ∷ cmds) w w₂

  post_up_loop-ok :
      {cmds : List Str} {w w' : W}
      → Succeed cmds w w'
      → post_up_loop F S show transport cmds w ≡ (ok tt, w')
  unfolding post_up_loop
  post_up_loop-ok done = refl
  post_up_loop-ok (more e s) = rw e (post_up_loop-ok s)

  post_up_loop-err :
      {before : List Str} {w w₁ : W} (cmd : Str) (after : List Str) (e : Error) (w₂ : W)
      → Succeed before w w₁
      → exec_success F S show transport cmd w₁ ≡ (err e, w₂)
      → post_up_loop F S show transport (before ++ (cmd ∷ after)) w ≡ (err e, w₂)
  unfolding post_up_loop
  post_up_loop-err cmd after e w₂ done h = rw h
  post_up_loop-err cmd after e w₂ (more q s) h = rw q (post_up_loop-err cmd after e w₂ s h)

  empty-loop :
      (cmds : List Str) (w : W)
      → (if is_empty cmds then pure tt else post_up_loop F S show transport cmds) w
        ≡ post_up_loop F S show transport cmds w
  unfolding post_up_loop
  empty-loop [] w = refl
  empty-loop (cmd ∷ cmds) w = refl

  -- PostUp succeeds when all its commands do, and ends in the world that the last one leaves.
  pub run_post_up-ok :
      (config : VpnConfig) (w w' : W)
      → Succeed config.post_up w w'
      → run_post_up F S show transport config w ≡ (ok tt, w')
  unfolding run_post_up
  run_post_up-ok config w w' s = empty-loop config.post_up w ∙ post_up_loop-ok s

  -- PostUp stops at the first command that fails, with its error and the world that it leaves: the
  -- commands behind it do not run.
  pub run_post_up-err :
      (config : VpnConfig) (before after : List Str) (cmd : Str) (e : Error) (w w₁ w₂ : W)
      → config.post_up ≡ before ++ (cmd ∷ after)
      → Succeed before w w₁
      → exec_success F S show transport cmd w₁ ≡ (err e, w₂)
      → run_post_up F S show transport config w ≡ (err e, w₂)
  unfolding run_post_up
  run_post_up-err config before after cmd e w w₁ w₂ split s h =
      empty-loop config.post_up w
      ∙ ap (λ cmds. post_up_loop F S show transport cmds w) split
      ∙ post_up_loop-err cmd after e w₂ s h

module _ (F : F64) {W : Type 0} (S : Ssh W) (transport : Transport F S) where
  -- These commands run one after the other, each from the world that the one before it left, also
  -- where that one failed.
  pub data Runs : List Str → W → W → Type 0 where
    none_left : {w : W} → Runs [] w w
    one :
        {cmd : Str} {cmds : List Str} {w w₂ : W}
        → Runs cmds (exec F S transport cmd w).1 w₂
        → Runs (cmd ∷ cmds) w w₂

  pre_down_loop-Runs : (cmds : List Str) (w : W) → Runs cmds w (pre_down_loop F S transport cmds w)
  unfolding pre_down_loop
  pre_down_loop-Runs [] w = none_left
  pre_down_loop-Runs (cmd ∷ cmds) w = one (pre_down_loop-Runs cmds _)

  run_from :
      (cmds : List Str) (w : W)
      → Runs cmds w (if is_empty cmds then w else pre_down_loop F S transport cmds w)
  run_from [] w = none_left
  run_from (cmd ∷ cmds) w = pre_down_loop-Runs (cmd ∷ cmds) w

  -- PreDown runs every command in order, whatever the ones before it answered.
  pub run_pre_down-Runs :
      (config : VpnConfig) (w : W) → Runs config.pre_down w (run_pre_down F S transport config w)
  unfolding run_pre_down
  run_pre_down-Runs config w = run_from config.pre_down w

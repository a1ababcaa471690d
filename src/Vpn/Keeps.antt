-- ===== src/Vpn/Keeps.antt =====
-- What the SSH side of a VPN session leaves alone: a view of the outside world that no operation on
-- a channel changes, such as the host's routing table.
use x2ssh.Base.{
  ℕ, List, [], ◌∷◌, ◌≡◌, refl, ◌∙◌, Str, Bool, true, false, Result, ok, err, Exec, continue, ◌>>=◌,
  if◌then◌else◌, is_empty,
}
use x2ssh.Ssh.{Ssh}
use x2ssh.Retry.Float.{F64}
use x2ssh.Transport.{Transport, exec, exec_success, open_session_channel}
use x2ssh.Config.{VpnConfig}
use x2ssh.Vpn.Agent.{send_packet, close}
use x2ssh.Vpn.Deploy
use x2ssh.Vpn.Deploy.{deploy}
use x2ssh.Vpn.Hooks.{post_up_loop, run_post_up}

-- The operations on a session's channels do not change the view.
pub record Unseen {W V : Type 0} (S : Ssh W) (view : W → V) : Type 0 where
  pub channel_open_session-view :
      (h : S.Handle) (w : W) → view (S.channel_open_session h w).1 ≡ view w
  pub exec-view : (c : S.Channel) (cmd : Str) (w : W) → view (S.exec c cmd w).1 ≡ view w
  pub send_data-view : (c : S.Channel) (bs : List ℕ) (w : W) → view (S.send_data c bs w).1 ≡ view w
  pub send_eof-view : (c : S.Channel) (w : W) → view (S.send_eof c w).1 ≡ view w
  pub close-view : (c : S.Channel) (w : W) → view (S.close c w).1 ≡ view w

-- An action that leaves the view as it is, whether it succeeds or not.
pub record Keeps {W V A : Type 0} (view : W → V) (m : Exec W A) : Type 0 where
  pub at : (w : W) → view (m w).1 ≡ view w

module _ {W V A B : Type 0} (view : W → V) where
  pub continue-view :
      (r : Result A) (f : A → Exec W B) (w : W)
      → ((a : A) → Keeps view (f a))
      → view (continue r f w).1 ≡ view w
  continue-view (ok a) f w kf = (kf a).at w
  continue-view (err e) f w kf = refl

  pub Keeps-bind :
      (m : Exec W A) (f : A → Exec W B)
      → Keeps view m
      → ((a : A) → Keeps view (f a))
      → Keeps view (m >>= f)
  Keeps-bind m f km kf = record { at = λ w. continue-view (m w).0 f (m w).1 kf ∙ km.at w }

module _ {W V A : Type 0} (view : W → V) where
  -- An action that only looks at the world.
  pub Keeps-read : (f : W → Result A) → Keeps view (λ w. (f w, w))
  Keeps-read f = record { at = λ w. refl }

  Keeps-if :
      (b : Bool) (m n : Exec W A) → Keeps view m → Keeps view n → Keeps view (if b then m else n)
  Keeps-if true m n km kn = km
  Keeps-if false m n km kn = kn

module _ {W V : Type 0} (S : Ssh W) (view : W → V) (U : Unseen S view) where
  open_session-Keeps : (h : S.Handle) → Keeps view (S.channel_open_session h)
  open_session-Keeps h = record { at = U.channel_open_session-view h }

  ssh_exec-Keeps : (c : S.Channel) (cmd : Str) → Keeps view (S.exec c cmd)
  ssh_exec-Keeps c cmd = record { at = U.exec-view c cmd }

  send_data-Keeps : (c : S.Channel) (bs : List ℕ) → Keeps view (S.send_data c bs)
  send_data-Keeps c bs = record { at = U.send_data-view c bs }

  send_eof-Keeps : (c : S.Channel) → Keeps view (S.send_eof c)
  send_eof-Keeps c = record { at = U.send_eof-view c }

  ssh_close-Keeps : (c : S.Channel) → Keeps view (S.close c)
  ssh_close-Keeps c = record { at = U.close-view c }

  ruleset keeps_rules = (
    Keeps-bind, Keeps-read, Keeps-if, open_session-Keeps, ssh_exec-Keeps, send_data-Keeps,
    send_eof-Keeps, ssh_close-Keeps,
  )

  pub send_packet-Keeps : (c : S.Channel) (p : List ℕ) → Keeps view (send_packet S c p)
  unfolding send_packet
  send_packet-Keeps c p = search keeps_rules

  pub close-Keeps : (c : S.Channel) → Keeps view (close S c)
  unfolding close
  close-Keeps c = search keeps_rules

  module _ (F : F64) (transport : Transport F S) where
    open_session_channel-Keeps : Keeps view (open_session_channel F S transport)
    unfolding open_session_channel
    open_session_channel-Keeps = search keeps_rules

    pub exec-Keeps : (cmd : Str) → Keeps view (exec F S transport cmd)
    unfolding exec
    exec-Keeps cmd = search keeps_rules

    exec_success-Keeps :
        (show : List ℕ → Str) (cmd : Str) → Keeps view (exec_success F S show transport cmd)
    unfolding exec_success
    exec_success-Keeps show cmd = search (keeps_rules, exec-Keeps)

    post_up_loop-Keeps :
        (show : List ℕ → Str) (cmds : List Str) → Keeps view (post_up_loop F S show transport cmds)
    unfolding post_up_loop
    post_up_loop-Keeps show [] = search keeps_rules
    post_up_loop-Keeps show (cmd ∷ cmds) =
        search (keeps_rules, exec_success-Keeps show cmd, post_up_loop-Keeps show cmds)

    pub run_post_up-Keeps :
        (show : List ℕ → Str) (config : VpnConfig)
        → Keeps view (run_post_up F S show transport config)
    unfolding run_post_up
    run_post_up-Keeps show config =
        Keeps-if view (is_empty config.post_up) _ _ (Keeps-read view (λ w. ok tt))
          (post_up_loop-Keeps show config.post_up)

    pub deploy-Keeps : (binary : List ℕ) → Keeps view (deploy F S binary transport)
    unfolding deploy
    deploy-Keeps binary = search (keeps_rules, open_session_channel-Keeps) depth 12

    pub start-Keeps :
        (server_address : Str) → Keeps view (Deploy.start F S transport server_address)
    unfolding Deploy.start
    start-Keeps server_address = search (keeps_rules, open_session_channel-Keeps)

-- ===== src/Vpn/Session/Run/Begun.antt =====
-- What a session that has started, and forwards packets, has done to the host.
use x2ssh.Base.{
  ◌≡◌, refl, sym, ap, ◌∙◌, List, false, Error, Result, ok, err, Exec, pure, ◌>>=◌, ◌>>◌, >>=-eq-ok,
  run_turns-holds,
}
use x2ssh.Net.{IpAddr, IpNets}
use x2ssh.Ssh.{Ssh}
use x2ssh.TunRs.{Tun}
use x2ssh.Retry.Float.{F64}
use x2ssh.Transport.{Transport}
use x2ssh.Config.{VpnConfig}
use x2ssh.Vpn.Deploy
use x2ssh.Vpn.Deploy.{deploy}
use x2ssh.Vpn.Hooks.{run_post_up}
use x2ssh.Vpn.Keeps.{
  Unseen, Keeps, continue-view, Keeps-bind, Keeps-read, deploy-Keeps, start-Keeps,
  run_post_up-Keeps,
}
use x2ssh.Vpn.Forward.Tasks.{Turn, up, down, Forwarding, take_turn, turns}
use x2ssh.Vpn.Routing.{RoutingState, new, setup}
use x2ssh.Vpn.Tun.{create}
use x2ssh.Vpn.Session.{Host, VpnSession, kept, setup_routing, start_with, or_dropped, start}
use x2ssh.Vpn.Session.Cleaning.Changes.{tun_to_agent-view}

module _ {W : Type 0} (S : Ssh W) (T : Tun) {V : Type 0} (view : W → V) (U : Unseen S view)
    (agent : S.Channel) where
  take_turn-view :
      (t : Turn) (f : Forwarding S T) → view (take_turn S T agent t f).world ≡ view f.world
  unfolding take_turn
  take_turn-view up f = tun_to_agent-view S T view U agent f.device f.world
  take_turn-view down f = refl

  pub turns-view :
      (ts : List Turn) (f : Forwarding S T) → view (turns S T agent ts f).world ≡ view f.world
  unfolding turns
  turns-view ts f =
      run_turns-holds (λ x. x.result) (take_turn S T agent) (λ x. view x.world ≡ view f.world)
        (λ t s _ h. take_turn-view t s ∙ h) ts f refl

module _ (F : F64) (N : IpNets) {W : Type 0} (S : Ssh W) (H : Host W) (transport : Transport F S)
    (config : VpnConfig) where
  kept-ok :
      (r : Result (Unit {0}) × (RoutingState N × W)) (state : RoutingState N) (w : W)
      → kept F N S H r ≡ (ok state, w)
      → r.1 ≡ (state, w)
  kept-ok (ok _, (s, v)) state w h = cc
  kept-ok (err e, (s, v)) state w h = cc

  or_dropped-err :
      (device : H.Device) (r : Result (VpnSession F N S H) × W) (e : Error) (w : W)
      → or_dropped F N S H device r ≡ (err e, w)
      → w ≡ H.drop_tun device r.1
  or_dropped-err device (ok session, v) e w h = cc
  or_dropped-err device (err e', v) e w h = cc

  or_dropped-ok :
      (device : H.Device) (r : Result (VpnSession F N S H) × W) (session : VpnSession F N S H)
      (w : W)
      → or_dropped F N S H device r ≡ (ok session, w)
      → r ≡ (ok session, w)
  or_dropped-ok device (ok s, v) session w h = h
  or_dropped-ok device (err e, v) session w h = cc

  kept-world : (r : Result (Unit {0}) × (RoutingState N × W)) → (kept F N S H r).1 ≡ r.1.1
  kept-world (ok _, (s, v)) = refl
  kept-world (err e, (s, v)) = refl

  module _ {V : Type 0} (view : W → V) (U : Unseen S view) where
    -- What a session that has started says of its routes, and of the view since the setup.
    abbrev pub Started : IpAddr → VpnSession F N S H → W → W → Type 0
    Started ssh_ip session w₁ w₂ =
        (w₃ : W) × ((setup N H.run_ip config ssh_ip (new N H.run_ip, w₁)).1 ≡ (session.routing, w₃))
        × (session.cleaned_up ≡ false)
        × (view w₂ ≡ view w₃)

    -- The part of `start` behind the setup of the routes.
    abbrev agent_part : H.Device → RoutingState N → IpAddr → Exec W (VpnSession F N S H)
    agent_part device routing ssh_ip = do
      deploy F S H.agent_binary transport
      agent ← Deploy.start F S transport config.server_address
      run_post_up F S H.show transport config
      pure (record {
        tun = device;
        routing = routing;
        agent = agent;
        ssh_server_ip = ssh_ip;
        cleaned_up = false;
      })

    agent_part-Keeps :
        (device : H.Device) (routing : RoutingState N) (ssh_ip : IpAddr)
        → Keeps view (agent_part device routing ssh_ip)
    agent_part-Keeps device routing ssh_ip =
        Keeps-bind view _ _ (deploy-Keeps S view U F transport H.agent_binary) (λ _.
          Keeps-bind view _ _ (start-Keeps S view U F transport config.server_address) (λ agent.
            Keeps-bind view _ _ (run_post_up-Keeps S view U F transport H.show config) (λ _.
              Keeps-read view (λ w. ok (record {
                tun = device;
                routing = routing;
                agent = agent;
                ssh_server_ip = ssh_ip;
                cleaned_up = false;
              })))))

    -- With the device created, `start` leaves of the view what the setup of the routes has left,
    -- up to the drop of the device.
    start_with-view :
        (ssh_ip : IpAddr) (device : H.Device) (w₀ w₁ : W)
        → H.new_connection w₀ ≡ (ok tt, w₁)
        → view (start_with F N S H transport config ssh_ip device w₀).1
          ≡ view (setup N H.run_ip config ssh_ip (new N H.run_ip, w₁)).1.1
    unfolding start_with setup_routing
    start_with-view ssh_ip device w₀ w₁ connected =
        let (r, w₂) = setup_routing F N S H config ssh_ip w₁ in
        rw connected (
          continue-view view r (λ routing. agent_part device routing ssh_ip) w₂
            (λ routing. agent_part-Keeps device routing ssh_ip)
          ∙ ap view (kept-world (setup N H.run_ip config ssh_ip (new N H.run_ip, w₁))))

    -- A `start` that fails behind the creation of the device has dropped the device last.
    pub start-Failed :
        (ssh_ip : IpAddr) (device : H.Device) (e : Error) (w w₀ w₁ w₂ : W)
        → create H.build_tun N config w ≡ (ok device, w₀)
        → H.new_connection w₀ ≡ (ok tt, w₁)
        → start F N S H transport config ssh_ip w ≡ (err e, w₂)
        → (w₃ : W) × (w₂ ≡ H.drop_tun device w₃)
          × (view w₃ ≡ view (setup N H.run_ip config ssh_ip (new N H.run_ip, w₁)).1.1)
    unfolding start
    start-Failed ssh_ip device e w w₀ w₁ w₂ created connected failed =
        let r = start_with F N S H transport config ssh_ip device w₀ in
        (
          r.1,
          or_dropped-err device r e w₂ (rw created at failed),
          start_with-view ssh_ip device w₀ w₁ connected,
        )

    agent_part-view :
        (device : H.Device) (routing : RoutingState N) (ssh_ip : IpAddr)
        (session : VpnSession F N S H) (w₂ w₃ : W)
        → agent_part device routing ssh_ip w₃ ≡ (ok session, w₂)
        → (session.routing ≡ routing) × (session.cleaned_up ≡ false) × (view w₂ ≡ view w₃)
    agent_part-view device routing ssh_ip session w₂ w₃ h =
        let (_, w₄, e₄, h₄) = >>=-eq-ok (deploy F S H.agent_binary transport) _ w₃ h in
        let (agent, w₅, e₅, h₅) =
          >>=-eq-ok (Deploy.start F S transport config.server_address) _ w₄ h₄ in
        let (_, w₆, e₆, h₆) = >>=-eq-ok (run_post_up F S H.show transport config) _ w₅ h₅ in
        let built : VpnSession F N S H = record {
          tun = device;
          routing = routing;
          agent = agent;
          ssh_server_ip = ssh_ip;
          cleaned_up = false;
        } in
        let same : built ≡ session = cc in
        let last : w₆ ≡ w₂ = cc in
        let deployed = (deploy-Keeps S view U F transport H.agent_binary).at w₃ in
        let begun = (start-Keeps S view U F transport config.server_address).at w₄ in
        let hooked = (run_post_up-Keeps S view U F transport H.show config).at w₅ in
        (
          ap (λ s. s.routing) (sym same),
          ap (λ s. s.cleaned_up) (sym same),
          ap view (sym last)
              ∙ ap (λ r. view r.1) (sym e₆)
              ∙ hooked
              ∙ ap (λ r. view r.1) (sym e₅)
              ∙ begun
              ∙ ap (λ r. view r.1) (sym e₄)
              ∙ deployed,
        )

    pub start-Started :
        (ssh_ip : IpAddr) (session : VpnSession F N S H) (device : H.Device) (w w₀ w₁ w₂ : W)
        → create H.build_tun N config w ≡ (ok device, w₀)
        → H.new_connection w₀ ≡ (ok tt, w₁)
        → start F N S H transport config ssh_ip w ≡ (ok session, w₂)
        → Started ssh_ip session w₁ w₂
    unfolding start start_with setup_routing
    start-Started ssh_ip session device w w₀ w₁ w₂ created connected started =
        let whole : start_with F N S H transport config ssh_ip device w₀ ≡ (ok session, w₂) =
          or_dropped-ok device _ session w₂ (rw created at started) in
        let (routing, w₃, e₃, h₃) =
          >>=-eq-ok (setup_routing F N S H config ssh_ip) (λ r. agent_part device r ssh_ip) w₁
            (rw connected at whole) in
        let (known, open', same) = agent_part-view device routing ssh_ip session w₂ w₃ h₃ in
        (w₃, kept-ok _ routing w₃ e₃ ∙ ap (λ r. (r, w₃)) (sym known), open', same)

-- ===== src/Vpn/Session/Lifecycle.antt =====
-- What a session leaves behind, on each way through it.
use x2ssh.Base.{[], ◌∷◌, ◌++◌, ◌≡◌, refl, ap, ◌∙◌, true, false, none, some}
use x2ssh.Base.{Bool-cases, inl, inr, if◌then◌else◌, Error, ok, err}
use x2ssh.Net.{IpAddr, IpNets}
use x2ssh.Ssh.{Ssh}
use x2ssh.Retry.Float.{F64}
use x2ssh.Transport.{Transport}
use x2ssh.Config.{VpnConfig, server_ip}
use x2ssh.Vpn.Agent.{close}
use x2ssh.Vpn.Deploy.{deploy}
use x2ssh.Vpn.Hooks.{run_pre_down}
use x2ssh.Vpn.IpRoute.{RouteInfo, get_default_route}
use x2ssh.Vpn.Routing.{new}
use x2ssh.Vpn.Routing.Commands.{
  del_default, issue, Spawns, restore_commands, del_commands, parsed, redirect, add_commands,
}
use x2ssh.Vpn.Routing.Setup.{cleanup_lem, setup_lem}
use x2ssh.Vpn.Tun.{create}
use x2ssh.Vpn.Session.{Host, VpnSession, setup_routing, start_with, start, tear_down, cleanup}

module _ (F : F64) (N : IpNets) {W : Type 0} (S : Ssh W) (H : Host W) where
  module _ (transport : Transport F S) (config : VpnConfig) where
    pub cleanup_done :
        (self : VpnSession F N S H) (w : W)
        → self.cleaned_up ≡ true
        → cleanup F N S H transport config self w ≡ (ok tt, self, w)
    unfolding cleanup
    cleanup_done self w h = rw h

    pub cleanup_open :
        (self : VpnSession F N S H) (w : W)
        → self.cleaned_up ≡ false
        → cleanup F N S H transport config self w ≡ (
          ok tt,
          (tear_down F N S H transport config self w).0,
          (tear_down F N S H transport config self w).1,
        )
    unfolding cleanup
    cleanup_open self w h =
        let t = tear_down F N S H transport config self w in
        ap (λ b. if b then (ok tt, self, w) else (ok tt, t.0, t.1)) h

    tear_down-cleaned_up :
        (self : VpnSession F N S H) (w : W)
        → ((tear_down F N S H transport config self w).0).cleaned_up ≡ true
    unfolding tear_down
    tear_down-cleaned_up self w = refl

    pub cleanup-cleaned_up :
        (self : VpnSession F N S H) (w : W)
        → ((cleanup F N S H transport config self w).1).cleaned_up ≡ true
    cleanup-cleaned_up self w = elim (Bool-cases self.cleaned_up) [
      | inl done ↦ ap (λ x. (x.1).cleaned_up) (cleanup_done self w done) ∙ done
      | inr not_done ↦
          ap (λ x. (x.1).cleaned_up) (cleanup_open self w not_done) ∙ tear_down-cleaned_up self w
    ]

    -- The first `cleanup` returns Ok. It runs the PreDown hooks, then closes the agent, then, also
    -- if that failed, puts the routes back; it forgets the exclusion routes and marks the session.
    pub cleanup_first :
        (self : VpnSession F N S H) (w : W)
        → Spawns H.run_ip
        → self.cleaned_up ≡ false
        → cleanup F N S H transport config self w ≡ (
          ok tt,
          record self {
            routing = record (self.routing) { exclusion_routes = [] };
            cleaned_up = true;
          },
          issue H.run_ip
              (del_default
                ∷ (restore_commands N (self.routing).original_default_route
                    ++ del_commands N (self.routing).exclusion_routes))
              (close S (self.agent).writer (run_pre_down F S transport config w)).1,
        )
    unfolding tear_down
    cleanup_first self w sp h =
        let w₂ = (close S (self.agent).writer (run_pre_down F S transport config w)).1 in
        cleanup_open self w h
        ∙ ap (λ x. (ok tt, record self { routing = ((x.1).0); cleaned_up = true }, (x.1).1))
            (cleanup_lem N H.run_ip sp self.routing w₂)

    -- When the agent cannot be deployed, `start` returns that error in the very world that the
    -- deployment left, but for the TUN device that is dropped: it issues no further command.
    pub start_leaves_routes :
        (ssh_ip server : IpAddr) (device : H.Device) (o : RouteInfo N) (e : Error)
        (w w₀ w₁ w₂ w₃ : W)
        → Spawns H.run_ip
        → create H.build_tun N config w ≡ (ok device, w₀)
        → H.new_connection w₀ ≡ (ok tt, w₁)
        → server_ip N config ≡ ok server
        → get_default_route N H.run_ip w₁ ≡ (ok (some o), w₂)
        → (parsed N config.exclude).1 ≡ none
        → deploy F S H.agent_binary transport (
            issue H.run_ip
              (redirect N o ssh_ip config.client_tun server
                ++ add_commands N o (parsed N config.exclude).0)
              w₂)
          ≡ (err e, w₃)
        → start F N S H transport config ssh_ip w ≡ (err e, H.drop_tun device w₃)
    unfolding start start_with setup_routing
    start_leaves_routes ssh_ip server device o e w w₀ w₁ w₂ w₃ sp hc hn hs hr hp hd =
        let ran = setup_lem N H.run_ip sp config ssh_ip server o (new N H.run_ip) w₁ w₂ hs hr in
        rw (hc, hn, ran, hp, hd)

-- ===== src/Vpn/Session/Run/Tunnelled.antt =====
-- The routing table while packets are forwarded.
use x2ssh.Base.{◌≡◌, sym, ap, ◌∙◌, List, false, some, Str, codes, ok}
use x2ssh.Net.{IpAddr, IpNets, show_ip}
use x2ssh.Ssh.{Ssh}
use x2ssh.TunRs.{Tun}
use x2ssh.Retry.Float.{F64}
use x2ssh.Transport.{Transport}
use x2ssh.Config.{VpnConfig, server_ip}
use x2ssh.Vpn.Keeps.{Unseen}
use x2ssh.Vpn.Forward.Tasks.{Turn, turns}
use x2ssh.Vpn.IpRoute.{RouteInfo, get_default_route}
use x2ssh.Vpn.Routing.Commands.{Spawns, parsed}
use x2ssh.Vpn.Routing.Table.{RouteTable, excludes, entry_within}
use x2ssh.Vpn.Routing.Table.Within.{lookup-setup}
use x2ssh.Vpn.Tun.{create}
use x2ssh.Vpn.Session.{Host, VpnSession, start}
use x2ssh.Vpn.Session.Run.{forwarding}
use x2ssh.Vpn.Session.Run.Begun.{turns-view, start-Started}

module _ (F : F64) (N : IpNets) {W : Type 0} (S : Ssh W) (H : Host W) (transport : Transport F S)
    (config : VpnConfig) (sp : Spawns H.run_ip) (R : RouteTable H.run_ip)
    (U : (x : Str) → Unseen S (λ w. R.lookup w x)) (ssh_ip server : IpAddr) (o : RouteInfo N)
    (device : H.Device) (session : VpnSession F N S H) (w w₀ w₁ w₂ w₃ : W) where
  -- At every point of a run whose session has started, whatever turns its tasks have had, if
  -- `get_default_route` had found a route and no exclusion is the default route: the default route
  -- goes by the TUN device if the host takes that route, and else there is none. The SSH server
  -- and each exclusion have the route that they had when the device had been created, or else one
  -- by the original gateway if the host takes that. Every other entry is as it was then.
  pub turns-entry_within :
      create H.build_tun N config w ≡ (ok device, w₀)
      → H.new_connection w₀ ≡ (ok tt, w₁)
      → server_ip N config ≡ ok server
      → get_default_route N H.run_ip w₁ ≡ (ok (some o), w₂)
      → excludes N (codes "default") (parsed N config.exclude).0 ≡ false
      → start F N S H transport config ssh_ip w ≡ (ok session, w₃)
      → (T : Tun) (tun : T.State) (ts : List Turn) (x : Str)
      → R.lookup
          (turns S T session.agent.writer ts
            (forwarding F N S H T transport config session tun w₃)).world
          x
        ≡ entry_within N R.takes o
            (N.show_net (N.of_ip ssh_ip))
            (some (show_ip N server))
            config.client_tun
            (parsed N config.exclude).0
            x
            (R.lookup w₁ x)
  turns-entry_within created connected valid known no_default started T tun ts x =
      let (w₄, setup', _, same) =
        start-Started F N S H transport config (λ v. R.lookup v x) (U x) ssh_ip session device w w₀
          w₁ w₃ created connected started in
      turns-view S T (λ v. R.lookup v x) (U x) session.agent.writer ts
        (forwarding F N S H T transport config session tun w₃)
      ∙ same
      ∙ ap (λ s. R.lookup s.1 x) (sym setup')
      ∙ lookup-setup N H.run_ip R sp config ssh_ip server o w₁ w₂ valid known no_default x

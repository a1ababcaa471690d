-- ===== src/Vpn/Routing/Setup/Undone.antt =====
-- Which `ip` commands a `cleanup` behind a `setup` issues.
use x2ssh.Base.{List, [], ◌∷◌, ◌++◌, ◌≡◌, refl, sym, ap, ◌∙◌}
use x2ssh.Base.{some, Str, ok, Exec}
use x2ssh.Net.{IpAddr, IpNets}
use x2ssh.Config.{VpnConfig, server_ip}
use x2ssh.Vpn.IpRoute.{RouteInfo, get_default_route}
use x2ssh.Vpn.Routing.{RoutingState, new, setup, cleanup}
use x2ssh.Vpn.Routing.Commands.{
  del_default, add_default, del_net, issue, Spawns, issue-append, add_commands, del_commands,
  parsed, restore_via, vias, redirect, del_nets,
}
use x2ssh.Vpn.Routing.Setup.{cleanup_lem, setup_lem}

module _ (N : IpNets) {W : Type 0} (run_ip : List Str → Exec W Str) (sp : Spawns run_ip) where
  del_commands-vias :
      (o : RouteInfo N) (nets : List N.IpNet) → del_commands N (vias N o nets) ≡ del_nets N nets
  del_commands-vias o [] = refl
  del_commands-vias o (net ∷ nets) = ap (λ cs. del_net N net ∷ cs) (del_commands-vias o nets)

  -- The commands of a `cleanup` behind a `setup`.
  abbrev pub back : RouteInfo N → List N.IpNet → List (List Str)
  back o nets = del_default ∷ (restore_via N o.interface o.gateway ++ del_nets N nets)

  pub cleanup-setup-issue :
      (config : VpnConfig) (ssh_ip server : IpAddr) (o : RouteInfo N) (w w₁ : W)
      → server_ip N config ≡ ok server
      → get_default_route N run_ip w ≡ (ok (some o), w₁)
      → cleanup N run_ip (setup N run_ip config ssh_ip (new N run_ip, w)).1 ≡ (
        ok tt,
        (
          record { original_default_route = some o; exclusion_routes = [] },
          issue run_ip
              (redirect N o ssh_ip config.client_tun server
                ++ (add_commands N o (parsed N config.exclude).0
                    ++ back o (parsed N config.exclude).0))
              w₁,
        ),
      )
  unfolding new
  cleanup-setup-issue config ssh_ip server o w w₁ hs hr =
      let nets = (parsed N config.exclude).0 in
      let state : RoutingState N = record {
        original_default_route = some o;
        exclusion_routes = vias N o nets;
      } in
      let w₂ = issue run_ip (redirect N o ssh_ip config.client_tun server) w₁ in
      let w₃ = issue run_ip (add_commands N o nets) w₂ in
      let first = setup_lem N run_ip sp config ssh_ip server o (new N run_ip) w w₁ hs hr in
      let second = cleanup_lem N run_ip sp state w₃ in
      let joined = issue-append run_ip (add_commands N o nets) (back o nets) w₂ in
      rw (first, second, del_commands-vias o nets)
        (ap (λ v. (ok tt, (record state { exclusion_routes = [] }, v))) (sym joined))

  -- After a `setup`, whether or not all exclusions parsed, `cleanup` puts the original gateway back
  -- and deletes exactly the exclusion routes that were added. The route to the SSH server that
  -- `setup` added stays: no command deletes it.
  pub cleanup-setup :
      (config : VpnConfig) (ssh_ip server gw : IpAddr) (o : RouteInfo N) (w w₁ : W)
      → server_ip N config ≡ ok server
      → get_default_route N run_ip w ≡ (ok (some o), w₁)
      → o.gateway ≡ some gw
      → cleanup N run_ip (setup N run_ip config ssh_ip (new N run_ip, w)).1 ≡ (
        ok tt,
        (
          record { original_default_route = some o; exclusion_routes = [] },
          issue run_ip
              (redirect N o ssh_ip config.client_tun server
                ++ (add_commands N o (parsed N config.exclude).0
                    ++ (del_default
                        ∷ add_default N gw o.interface
                        ∷ del_nets N (parsed N config.exclude).0)))
              w₁,
        ),
      )
  cleanup-setup config ssh_ip server gw o w w₁ hs hr hg =
      let nets = (parsed N config.exclude).0 in
      cleanup-setup-issue config ssh_ip server o w w₁ hs hr
      ∙ ap
          (λ g. (
            ok tt,
            (
              record { original_default_route = some o; exclusion_routes = [] },
              issue run_ip
                  (redirect N o ssh_ip config.client_tun server
                    ++ (add_commands N o nets
                        ++ (del_default ∷ (restore_via N o.interface g ++ del_nets N nets))))
                  w₁,
            ),
          ))
          hg

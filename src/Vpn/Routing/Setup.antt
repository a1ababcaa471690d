-- ===== src/Vpn/Routing/Setup.antt =====
-- Which `ip` commands `setup` and `cleanup` issue, and what the manager remembers.
pub mod Undone
use x2ssh.Base.{List, [], ◌∷◌, ◌++◌, ◌≡◌, refl, sym, ap, ◌∙◌, append_assoc, append-nil}
use x2ssh.Base.{
  Option, none, some, Str, Error, Result, ok, err, Exec, Result-cases, continue, pure, inl, inr,
}
use x2ssh.Net.{IpAddr, IpNets}
use x2ssh.Config.{VpnConfig, server_ip}
use x2ssh.Vpn.IpRoute.{RouteInfo, get_default_route}
use x2ssh.Vpn.Routing.{
  RoutingState, new, restore_gateway, restore_default, add_exclusions, add_exclusion_route, setup,
  cleanup, delete_all, save_original_default_route, route_ssh_server_via_original_gateway,
  set_default_route_via_tun,
}
use x2ssh.Vpn.Routing.Commands.{
  del_default, add_default, add_via, del_net, issue, Spawns, issue-append, via, add_commands,
  del_commands, parsed_cons, parsed, restore_via, restore_commands, vias, redirect, del_nets,
  outcome, delete_default_route_ok, add_default_route_ok, add_route_via_gateway_ok, delete_route_ok,
}

module _ (N : IpNets) {W : Type 0} (run_ip : List Str → Exec W Str) (sp : Spawns run_ip) where
  delete_all_lem :
      (rs : List (RouteInfo N)) (state : RoutingState N) (w : W)
      → delete_all N run_ip rs (state, w) ≡ (ok tt, (state, issue run_ip (del_commands N rs) w))
  unfolding delete_all
  delete_all_lem [] state w = refl
  delete_all_lem (r ∷ rs) state w =
      rw (delete_route_ok N run_ip sp r.destination w) (delete_all_lem rs state _)

  restore_gateway_lem :
      (interface : Str) (gw : Option IpAddr) (state : RoutingState N) (w : W)
      → restore_gateway N run_ip interface gw (state, w)
        ≡ (ok tt, (state, issue run_ip (restore_via N interface gw) w))
  unfolding restore_gateway
  restore_gateway_lem interface none state w = refl
  restore_gateway_lem interface (some gw) state w =
      rw (add_default_route_ok N run_ip sp gw interface w)

  restore_default_lem :
      (o : Option (RouteInfo N)) (state : RoutingState N) (w : W)
      → restore_default N run_ip o (state, w)
        ≡ (ok tt, (state, issue run_ip (restore_commands N o) w))
  unfolding restore_default
  restore_default_lem none state w = refl
  restore_default_lem (some o) state w = restore_gateway_lem o.interface o.gateway state w

  -- `cleanup` deletes the default route, puts the original one back if it is known and has a
  -- gateway, and deletes the exclusion routes that it remembers, which it then forgets. It issues
  -- no other command.
  pub cleanup_lem :
      (state : RoutingState N) (w : W)
      → cleanup N run_ip (state, w) ≡ (
        ok tt,
        (
          record state { exclusion_routes = [] },
          issue run_ip
              (del_default
                ∷ (restore_commands N state.original_default_route
                    ++ del_commands N state.exclusion_routes))
              w,
        ),
      )
  unfolding cleanup
  cleanup_lem state w =
      let w₁ = (run_ip del_default w).1 in
      let w₂ = issue run_ip (restore_commands N state.original_default_route) w₁ in
      let step₁ = delete_default_route_ok N run_ip sp w in
      let step₂ = restore_default_lem state.original_default_route state w₁ in
      let step₃ = delete_all_lem state.exclusion_routes state w₂ in
      let joined =
        issue-append run_ip (restore_commands N state.original_default_route)
          (del_commands N state.exclusion_routes) w₁ in
      rw (step₁, step₂, step₃, joined)

  abbrev with_routes : RoutingState N → List (RouteInfo N) → RoutingState N
  with_routes state rs = record state { exclusion_routes = state.exclusion_routes ++ rs }

  add_exclusion_route_lem :
      (net : N.IpNet) (o : RouteInfo N) (state : RoutingState N) (w : W)
      → state.original_default_route ≡ some o
      → add_exclusion_route N run_ip net (state, w) ≡ (
        ok tt,
        (
          with_routes state (via N o net ∷ []),
          issue run_ip (add_via N net o.gateway o.interface ∷ []) w,
        ),
      )
  unfolding add_exclusion_route
  add_exclusion_route_lem net o state w h =
      rw (h, add_route_via_gateway_ok N run_ip sp net o.gateway o.interface w)

  -- What the loop over the exclusions leaves, from the ones that parse.
  abbrev pub excluded :
      List N.IpNet × Option Error
      → RouteInfo N
      → RoutingState N
      → W
      → Result (Unit {0}) × (RoutingState N × W)
  excluded (nets, e) o state w =
      (outcome e, (with_routes state (vias N o nets), issue run_ip (add_commands N o nets) w))

  excluded_none :
      (e : Option Error) (o : RouteInfo N) (state : RoutingState N) (w : W)
      → (outcome e, (state, w)) ≡ excluded ([], e) o state w
  excluded_none e o state w =
      ap (λ rs. (outcome e, (record state { exclusion_routes = rs }, w)))
        (sym (append-nil state.exclusion_routes))

  excluded_cons :
      (net : N.IpNet) (p : List N.IpNet × Option Error) (o : RouteInfo N) (state : RoutingState N)
      (w : W)
      → excluded p o
          (with_routes state (via N o net ∷ []))
          (issue run_ip (add_via N net o.gateway o.interface ∷ []) w)
        ≡ excluded (parsed_cons N (ok net) p) o state w
  excluded_cons net p o state w =
      ap
        (λ rs. (
          outcome p.1,
          (
            record state { exclusion_routes = rs },
            issue run_ip (add_via N net o.gateway o.interface ∷ add_commands N o p.0) w,
          ),
        ))
        (append_assoc state.exclusion_routes (via N o net ∷ []) (vias N o p.0))

  add_exclusions_lem :
      (exclude : List Str) (o : RouteInfo N) (state : RoutingState N) (w : W)
      → state.original_default_route ≡ some o
      → add_exclusions N run_ip exclude (state, w) ≡ excluded (parsed N exclude) o state w
  unfolding add_exclusions
  add_exclusions_lem [] o state w h = excluded_none none o state w
  add_exclusions_lem (s ∷ rest) o state w h = elim (Result-cases (N.parse_net s)) [
    | inl (net, q) ↦
        let step = add_exclusion_route_lem net o state w h in
        let ih =
          add_exclusions_lem rest o (with_routes state (via N o net ∷ []))
            (issue run_ip (add_via N net o.gateway o.interface ∷ []) w) h in
        rw (q, step) (ih ∙ excluded_cons net (parsed N rest) o state w)
    | inr (e, q) ↦ rw q (excluded_none (some e) o state w)
  ]

  save_lem :
      (o : RouteInfo N) (state : RoutingState N) (w w₁ : W)
      → get_default_route N run_ip w ≡ (ok (some o), w₁)
      → save_original_default_route N run_ip (state, w)
        ≡ (ok tt, (record state { original_default_route = some o }, w₁))
  unfolding save_original_default_route
  save_lem o state w w₁ h = rw h

  host_lem :
      (ip : IpAddr) (o : RouteInfo N) (state : RoutingState N) (w : W)
      → state.original_default_route ≡ some o
      → route_ssh_server_via_original_gateway N run_ip ip (state, w)
        ≡ (ok tt, (state, issue run_ip (add_via N (N.of_ip ip) o.gateway o.interface ∷ []) w))
  unfolding route_ssh_server_via_original_gateway
  host_lem ip o state w h =
      rw (h, add_route_via_gateway_ok N run_ip sp (N.of_ip ip) o.gateway o.interface w)

  default_lem :
      (tun_name : Str) (gw : IpAddr) (state : RoutingState N) (w : W)
      → set_default_route_via_tun N run_ip tun_name gw (state, w)
        ≡ (ok tt, (state, issue run_ip (del_default ∷ add_default N gw tun_name ∷ []) w))
  unfolding set_default_route_via_tun
  default_lem tun_name gw state w = rw (
    delete_default_route_ok N run_ip sp w,
    add_default_route_ok N run_ip sp gw tun_name (issue run_ip (del_default ∷ []) w),
  )

  end_unit : (r : Result (Unit {0})) (x : RoutingState N × W) → continue r (λ _. pure tt) x ≡ (r, x)
  end_unit (ok _) x = refl
  end_unit (err e) x = refl

  -- With an original default route, `setup` remembers it, routes the SSH server through it, and
  -- puts the default route on the TUN device. Then it adds a route for each exclusion up to the
  -- first that does not parse; at that one it fails and leaves all that it did.
  pub setup_lem :
      (config : VpnConfig) (ssh_ip server : IpAddr) (o : RouteInfo N) (state : RoutingState N)
      (w w₁ : W)
      → server_ip N config ≡ ok server
      → get_default_route N run_ip w ≡ (ok (some o), w₁)
      → setup N run_ip config ssh_ip (state, w)
        ≡ excluded
            (parsed N config.exclude)
            o
            (record state { original_default_route = some o })
            (issue run_ip (redirect N o ssh_ip config.client_tun server) w₁)
  unfolding setup
  setup_lem config ssh_ip server o state w w₁ hs hr =
      let saved = record state { original_default_route = some o } in
      let w₂ = issue run_ip (add_via N (N.of_ip ssh_ip) o.gateway o.interface ∷ []) w₁ in
      let w₃ = issue run_ip (del_default ∷ add_default N server config.client_tun ∷ []) w₂ in
      rw
        (
          hs,
          save_lem o state w w₁ hr,
          host_lem ssh_ip o saved w₁ refl,
          default_lem config.client_tun server saved w₂,
          add_exclusions_lem config.exclude o saved w₃ refl,
        )
        (end_unit (outcome (parsed N config.exclude).1) _)

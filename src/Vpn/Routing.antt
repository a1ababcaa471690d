-- ===== src/Vpn/Routing.antt =====
-- x2ssh/src/vpn/routing.rs: `RoutingManager`.
pub mod Commands
pub mod Setup
pub mod Table
use x2ssh.Base.{ℕ, List, [], ◌∷◌, ◌++◌, Option, none, some, Str}
use x2ssh.Base.{Error, Result, ok, err, Exec, pure, lift, ◌>>=◌, ◌>>◌}
use x2ssh.Net.{IpAddr, IpNets}
use x2ssh.Config.{VpnConfig, server_ip}
use x2ssh.Vpn.IpRoute.{
  RouteInfo, get_default_route, delete_default_route, add_default_route, add_route_via_gateway,
  delete_route,
}

pub record RoutingState (N : IpNets) : Type 0 where
  pub original_default_route : Option (RouteInfo N)
  pub exclusion_routes : List (RouteInfo N)

module _ (N : IpNets) {W : Type 0} (run_ip : List Str → Exec W Str) where
  -- The methods change the state of the manager and the world.
  abbrev pub Managed : Type 0 → Type 0
  Managed A = Exec (RoutingState N × W) A

  abbrev pub io : {A : Type 0} → Exec W A → Managed A
  io m (state, w) = let (r, w') = m w in (r, (state, w'))

  abbrev pub get_original : Managed (Option (RouteInfo N))
  get_original (state, w) = (ok state.original_default_route, (state, w))

  abbrev pub set_original : Option (RouteInfo N) → Managed (Unit {0})
  set_original route (state, w) = (ok tt, (record state { original_default_route = route }, w))

  abbrev pub push_exclusion : RouteInfo N → Managed (Unit {0})
  push_exclusion route (state, w) =
      (ok tt, (record state { exclusion_routes = state.exclusion_routes ++ (route ∷ []) }, w))

  abbrev pub get_exclusions : Managed (List (RouteInfo N))
  get_exclusions (state, w) = (ok state.exclusion_routes, (state, w))

  abbrev pub clear_exclusions : Managed (Unit {0})
  clear_exclusions (state, w) = (ok tt, (record state { exclusion_routes = [] }, w))

  unfoldable pub new : RoutingState N
  new = record { original_default_route = none; exclusion_routes = [] }

  unfoldable pub save_original_default_route : Managed (Unit {0})
  save_original_default_route = do
    route ← io (get_default_route N run_ip)
    set_original route
    pure tt

  host_route : IpAddr → Option (RouteInfo N) → Managed (Unit {0})
  host_route ssh_ip none = pure tt
  host_route ssh_ip (some original) =
      io (add_route_via_gateway N run_ip (N.of_ip ssh_ip) original.gateway original.interface)

  unfoldable pub route_ssh_server_via_original_gateway : IpAddr → Managed (Unit {0})
  unfolding host_route
  route_ssh_server_via_original_gateway ssh_ip = do
    original ← get_original
    host_route ssh_ip original
    pure tt

  unfoldable pub set_default_route_via_tun : Str → IpAddr → Managed (Unit {0})
  set_default_route_via_tun tun_name gateway = do
    io (delete_default_route N run_ip)
    io (add_default_route N run_ip gateway tun_name)
    pure tt

  exclusion_via : N.IpNet → Option (RouteInfo N) → Managed (Unit {0})
  exclusion_via net none = pure tt
  exclusion_via net (some original) = do
    io (add_route_via_gateway N run_ip net original.gateway original.interface)
    push_exclusion
        (record { destination = net; gateway = original.gateway; interface = original.interface })

  unfoldable pub add_exclusion_route : N.IpNet → Managed (Unit {0})
  unfolding exclusion_via
  add_exclusion_route net = do original ← get_original; exclusion_via net original; pure tt

  unfoldable pub add_exclusions : List Str → Managed (Unit {0})
  add_exclusions [] = pure tt
  add_exclusions (exclusion ∷ rest) = do
    net ← lift (N.parse_net exclusion)
    add_exclusion_route net
    add_exclusions rest

  unfoldable pub setup : VpnConfig → IpAddr → Managed (Unit {0})
  setup config ssh_server_ip = do
    server ← lift (server_ip N config)
    save_original_default_route
    route_ssh_server_via_original_gateway ssh_server_ip
    set_default_route_via_tun config.client_tun server
    add_exclusions config.exclude
    pure tt

  unfoldable pub restore_gateway : Str → Option IpAddr → Managed (Unit {0})
  restore_gateway interface none = pure tt
  restore_gateway interface (some gw) = io (add_default_route N run_ip gw interface)

  unfoldable pub restore_default : Option (RouteInfo N) → Managed (Unit {0})
  unfolding restore_gateway
  restore_default none = pure tt
  restore_default (some original) = restore_gateway original.interface original.gateway

  unfoldable pub delete_all : List (RouteInfo N) → Managed (Unit {0})
  delete_all [] = pure tt
  delete_all (route ∷ rest) = do io (delete_route N run_ip route.destination); delete_all rest

  unfoldable pub cleanup : Managed (Unit {0})
  unfolding restore_default delete_all
  cleanup = do
    io (delete_default_route N run_ip)
    original ← get_original
    restore_default original
    routes ← get_exclusions
    delete_all routes
    clear_exclusions
    pure tt

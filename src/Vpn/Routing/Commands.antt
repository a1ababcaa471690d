-- ===== src/Vpn/Routing/Commands.antt =====
-- Which `ip` commands the free functions issue, when `ip` can be run.
use x2ssh.Base.{
  List, [], ◌∷◌, ◌++◌, ◌≡◌, refl, Option, none, some, Str, codes, Error, Result, ok, err, Exec,
}
use x2ssh.Net.{IpAddr, IpNets, show_ip}
use x2ssh.Vpn.IpRoute.{
  RouteInfo, delete_default_route, add_default_route, add_route_via_gateway, delete_route,
}

abbrev pub Command : Type 0
Command = List Str

abbrev pub del_default : Command
del_default = codes "route" ∷ codes "del" ∷ codes "default" ∷ []

module _ (N : IpNets) where
  abbrev pub add_default : IpAddr → Str → Command
  add_default gw interface =
      codes "route"
      ∷ codes "add"
      ∷ codes "default"
      ∷ codes "via"
      ∷ show_ip N gw
      ∷ codes "dev"
      ∷ interface
      ∷ []

  abbrev pub add_via : N.IpNet → Option IpAddr → Str → Command
  add_via dest (some gw) interface =
      codes "route"
      ∷ codes "add"
      ∷ N.show_net dest
      ∷ codes "via"
      ∷ show_ip N gw
      ∷ codes "dev"
      ∷ interface
      ∷ []
  add_via dest none interface =
      codes "route" ∷ codes "add" ∷ N.show_net dest ∷ codes "dev" ∷ interface ∷ []

  abbrev pub del_net : N.IpNet → Command
  del_net dest = codes "route" ∷ codes "del" ∷ N.show_net dest ∷ []

  abbrev pub via : RouteInfo N → N.IpNet → RouteInfo N
  via o net = record { destination = net; gateway = o.gateway; interface = o.interface }

  abbrev pub add_commands : RouteInfo N → List N.IpNet → List Command
  add_commands o [] = []
  add_commands o (net ∷ nets) = add_via net o.gateway o.interface ∷ add_commands o nets

  abbrev pub del_commands : List (RouteInfo N) → List Command
  del_commands [] = []
  del_commands (r ∷ rs) = del_net r.destination ∷ del_commands rs

  abbrev pub parsed_cons :
      Result N.IpNet → List N.IpNet × Option Error → List N.IpNet × Option Error
  parsed_cons (ok net) rest = (net ∷ rest.0, rest.1)
  parsed_cons (err e) rest = ([], some e)

  -- The exclusions that parse, up to the first that does not, and its error.
  abbrev pub parsed : List Str → List N.IpNet × Option Error
  parsed [] = ([], none)
  parsed (s ∷ rest) = parsed_cons (N.parse_net s) (parsed rest)

  abbrev pub restore_via : Str → Option IpAddr → List Command
  restore_via interface none = []
  restore_via interface (some gw) = add_default gw interface ∷ []

  abbrev pub restore_commands : Option (RouteInfo N) → List Command
  restore_commands none = []
  restore_commands (some o) = restore_via o.interface o.gateway

  abbrev pub vias : RouteInfo N → List N.IpNet → List (RouteInfo N)
  vias o [] = []
  vias o (net ∷ nets) = via o net ∷ vias o nets

  -- The commands of `setup` up to the exclusions, once the original route is known.
  abbrev pub redirect : RouteInfo N → IpAddr → Str → IpAddr → List Command
  redirect o ssh_ip tun_name server =
      add_via (N.of_ip ssh_ip) o.gateway o.interface
      ∷ del_default
      ∷ add_default server tun_name
      ∷ []

  abbrev pub del_nets : List N.IpNet → List Command
  del_nets [] = []
  del_nets (net ∷ nets) = del_net net ∷ del_nets nets

abbrev pub outcome : Option Error → Result (Unit {0})
outcome none = ok tt
outcome (some e) = err e

module _ {W : Type 0} (run_ip : List Str → Exec W Str) where
  -- The world after these commands, in this order.
  abbrev pub issue : List Command → W → W
  issue [] w = w
  issue (c ∷ cs) w = issue cs (run_ip c w).1

  -- The program `ip` can be started; what it answers is free.
  abbrev pub Spawns : Type 0
  Spawns = (c : Command) (w : W) → (out : Str) × ((run_ip c w).0 ≡ ok out)

  pub issue-append : (cs ds : List Command) (w : W) → issue (cs ++ ds) w ≡ issue ds (issue cs w)
  issue-append [] ds w = refl
  issue-append (c ∷ cs) ds w = issue-append cs ds (run_ip c w).1

module _ (N : IpNets) {W : Type 0} (run_ip : List Str → Exec W Str) (sp : Spawns run_ip) where
  pub delete_default_route_ok :
      (w : W) → delete_default_route N run_ip w ≡ (ok tt, issue run_ip (del_default ∷ []) w)
  unfolding delete_default_route
  delete_default_route_ok w = let (out, e) = sp del_default w in rw e

  pub add_default_route_ok :
      (gw : IpAddr) (interface : Str) (w : W)
      → add_default_route N run_ip gw interface w
        ≡ (ok tt, issue run_ip (add_default N gw interface ∷ []) w)
  unfolding add_default_route
  add_default_route_ok gw interface w = let (out, e) = sp (add_default N gw interface) w in rw e

  pub add_route_via_gateway_ok :
      (dest : N.IpNet) (gw : Option IpAddr) (interface : Str) (w : W)
      → add_route_via_gateway N run_ip dest gw interface w
        ≡ (ok tt, issue run_ip (add_via N dest gw interface ∷ []) w)
  unfolding add_route_via_gateway
  add_route_via_gateway_ok dest (some gw) interface w =
      let (out, e) = sp (add_via N dest (some gw) interface) w in rw e
  add_route_via_gateway_ok dest none interface w =
      let (out, e) = sp (add_via N dest none interface) w in rw e

  pub delete_route_ok :
      (dest : N.IpNet) (w : W)
      → delete_route N run_ip dest w ≡ (ok tt, issue run_ip (del_net N dest ∷ []) w)
  unfolding delete_route
  delete_route_ok dest w = let (out, e) = sp (del_net N dest) w in rw e

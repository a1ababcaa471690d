-- ===== src/Vpn/IpRoute.antt =====
-- x2ssh/src/vpn/routing.rs: the free functions, each a call of the `ip` command. `run_ip` is a
-- parameter: it gives the standard output as text, or fails if the command cannot be run.
pub mod Reading
use x2ssh.Base.{List, [], ◌∷◌, Option, none, some, Str, codes, str_eq}
use x2ssh.Base.{if◌then◌else◌, Result, ok, err, Exec, pure, lift, ◌>>=◌}
use x2ssh.Net.{IpAddr, IpNets, show_ip}
use x2ssh.Net.Parse.{split_whitespace, first_line, parse_ipv4}

pub record RouteInfo (N : IpNets) : Type 0 where
  pub destination : N.IpNet
  pub gateway : Option IpAddr
  pub interface : Str

-- The gateway and the interface found so far.
abbrev pub Found : Type 0
Found = Option IpAddr × Option Str

-- The body of the loop at a word and the one behind it.
abbrev pub look_at : Str → Str → Found → Found
look_at part next (gateway, interface) = (
  if str_eq part (codes "via") then parse_ipv4 next else gateway,
  if str_eq part (codes "dev") then some next else interface,
)

-- `for i in 0..parts.len()`; both tests want a word behind.
unfoldable pub scan : List Str → Found → Found
scan [] found = found
scan (part ∷ []) found = found
scan (part ∷ next ∷ rest) found = scan (next ∷ rest) (look_at part next found)

module _ (N : IpNets) {W : Type 0} (run_ip : List Str → Exec W Str) where
  route_of : Found → Result (Option (RouteInfo N))
  route_of (gateway, none) = ok none
  route_of (gateway, some iface) = elim (N.parse_net (codes "0.0.0.0/0")) [
    | ok net ↦ ok (some (record { destination = net; gateway = gateway; interface = iface }))
    | err e ↦ err e
  ]

  route_of_line : Option Str → Result (Option (RouteInfo N))
  unfolding route_of scan
  route_of_line none = ok none
  route_of_line (some line) = route_of (scan (split_whitespace line) (none, none))

  unfoldable pub get_default_route : Exec W (Option (RouteInfo N))
  unfolding route_of_line
  get_default_route = do
    stdout ← run_ip (codes "route" ∷ codes "show" ∷ codes "default" ∷ [])
    lift (route_of_line (first_line stdout))

  unfoldable pub delete_default_route : Exec W (Unit {0})
  delete_default_route = do _ ← run_ip (codes "route" ∷ codes "del" ∷ codes "default" ∷ []); pure tt

  unfoldable pub add_default_route : IpAddr → Str → Exec W (Unit {0})
  add_default_route gateway interface = do
    _ ← run_ip (
        codes "route"
        ∷ codes "add"
        ∷ codes "default"
        ∷ codes "via"
        ∷ show_ip N gateway
        ∷ codes "dev"
        ∷ interface
        ∷ [])
    pure tt

  unfoldable pub add_route_via_gateway : N.IpNet → Option IpAddr → Str → Exec W (Unit {0})
  add_route_via_gateway dest (some gw) interface = do
    _ ← run_ip (
        codes "route"
        ∷ codes "add"
        ∷ N.show_net dest
        ∷ codes "via"
        ∷ show_ip N gw
        ∷ codes "dev"
        ∷ interface
        ∷ [])
    pure tt
  add_route_via_gateway dest none interface = do
    _ ← run_ip (codes "route" ∷ codes "add" ∷ N.show_net dest ∷ codes "dev" ∷ interface ∷ [])
    pure tt

  unfoldable pub delete_route : N.IpNet → Exec W (Unit {0})
  delete_route dest = do _ ← run_ip (codes "route" ∷ codes "del" ∷ N.show_net dest ∷ []); pure tt

-- ===== src/Vpn/Routing/Table.antt =====
-- What the `ip` commands of x2ssh/src/vpn/routing.rs do to the routing table of the host.
pub mod Cycle
pub mod Restore
pub mod Within
use x2ssh.Base.{
  List, [], ◌∷◌, ◌≡◌, Bool, true, false, Option, none, some, Str, codes, str_eq, if◌then◌else◌,
  Exec, ◌||◌,
}
use x2ssh.Net.{IpAddr, IpNets, show_ip}
use x2ssh.Vpn.IpRoute.{RouteInfo}
use x2ssh.Vpn.Routing.Commands.{Command}

-- A change of the table: `ip route add` or `ip route del`, with the destination as a text.
pub data Change : Type 0 where
  add : Str → Option Str → Str → Change
  del : Str → Change

-- The gateway and the device of a route.
abbrev pub Via : Type 0
Via = Option Str × Str

abbrev pub words : Change → Command
words (add dest (some gw) dev) =
    codes "route" ∷ codes "add" ∷ dest ∷ codes "via" ∷ gw ∷ codes "dev" ∷ dev ∷ []
words (add dest none dev) = codes "route" ∷ codes "add" ∷ dest ∷ codes "dev" ∷ dev ∷ []
words (del dest) = codes "route" ∷ codes "del" ∷ dest ∷ []

-- The name of a destination in the table: 0.0.0.0/0 is the default route.
abbrev pub name_of : Str → Str
name_of dest = if str_eq dest (codes "0.0.0.0/0") then codes "default" else dest

-- Whether a host takes a route to a destination by this gateway and device, where it has none: it
-- does not if the gateway is not on the link of the device, or is of the other IP version.
abbrev pub Takes : Type 0
Takes = Str → Option Str → Str → Bool

abbrev pub added : Bool → Via → Option Via → Option Via
added false via entry = entry
added true via none = some via
added true via (some old) = some old

abbrev pub placed : Takes → Str → Via → Option Via → Option Via
placed takes x via entry = added (takes x via.0 via.1) via entry

-- The entry of a destination behind a change: `add` fails, and changes nothing, where there is one
-- or where the host does not take the route.
abbrev pub changed : Takes → Change → Str → Option Via → Option Via
changed takes (add dest gw dev) x entry =
    if str_eq x (name_of dest) then placed takes x (gw, dev) entry else entry
changed takes (del dest) x entry = if str_eq x (name_of dest) then none else entry

abbrev pub changes : Takes → List Change → Str → Option Via → Option Via
changes takes [] x entry = entry
changes takes (c ∷ cs) x entry = changes takes cs x (changed takes c x entry)

-- The table with one route for each destination, as the `ip` command documents it, while the
-- addresses of the host, which say what it takes, stay as they are.
pub record RouteTable {W : Type 0} (run_ip : List Str → Exec W Str) : Type 0 where
  pub takes : Takes
  pub lookup : W → Str → Option Via
  pub lookup-words :
      (c : Change) (w : W) (x : Str)
      → lookup (run_ip (words c) w).1 x ≡ changed takes c x (lookup w x)
  pub lookup-show :
      (w : W) (x : Str)
      → lookup (run_ip (codes "route" ∷ codes "show" ∷ codes "default" ∷ []) w).1 x ≡ lookup w x

-- An entry where a device has gone, whose routes the kernel takes away with it.
abbrev pub without : Str → Option Via → Option Via
without dev none = none
without dev (some via) = if str_eq via.1 dev then none else some via

module _ (N : IpNets) where
  abbrev pub gateway_text : Option IpAddr → Option Str
  gateway_text none = none
  gateway_text (some gw) = some (show_ip N gw)

  -- Whether a destination is one of these networks.
  abbrev pub excludes : Str → List N.IpNet → Bool
  excludes x [] = false
  excludes x (net ∷ nets) = str_eq x (name_of (N.show_net net)) || excludes x nets

  -- The default route behind a cleanup that knows this route.
  abbrev pub default_via : Takes → Str → Option IpAddr → Option Via
  default_via takes interface none = none
  default_via takes interface (some gw) =
      placed takes (codes "default") (some (show_ip N gw), interface) none

  abbrev pub default_after : Takes → RouteInfo N → Option Via
  default_after takes o = default_via takes o.interface o.gateway

  -- The entry of a destination behind a setup and its cleanup.
  abbrev pub entry_after : Takes → RouteInfo N → Str → List N.IpNet → Str → Option Via → Option Via
  entry_after takes o host nets x entry =
      if str_eq x (codes "default")
      then default_after takes o
      else if excludes x nets
      then none
      else changed takes (add host (gateway_text o.gateway) o.interface) x entry

  -- The entry of a destination behind a setup alone: while the tunnel runs.
  abbrev pub entry_within :
      Takes → RouteInfo N → Str → Option Str → Str → List N.IpNet → Str → Option Via → Option Via
  entry_within takes o host server tun_name nets x entry =
      if str_eq x (codes "default")
      then placed takes (codes "default") (server, tun_name) none
      else if str_eq x (name_of host) || excludes x nets
      then placed takes x (gateway_text o.gateway, o.interface) entry
      else entry

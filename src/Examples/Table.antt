-- ===== src/Examples/Table.antt =====
-- A routing table that is replayed from the log of the `ip` commands.
use x2ssh.Base.{
  ℕ, ◌==◌, Bool, ◌||◌, sym, subst, eq_of_str_eq, decimal, ok, ◌≡◌, refl, ◌∙◌, List, [], ◌∷◌, ◌++◌,
  Option, none, some, true, false, Str, codes, str_eq, if◌then◌else◌,
}
use x2ssh.Config.{VpnConfig, server_ip}
use x2ssh.Net.{show_ip}
use x2ssh.Vpn.Routing.{new, setup, cleanup}
use x2ssh.Vpn.Routing.Table.{
  Change, add, del, Takes, Via, words, changed, without, RouteTable, excludes,
}
use x2ssh.Vpn.Routing.Table.Restore.{lookup-cleanup}
use x2ssh.Examples.World.{World, calm, gateway, nets, host}
use x2ssh.Examples.Session.{config, original, server_tun, ssh_ip, spawns, shown, default_route}

abbrev has_byte : ℕ → Str → Bool
has_byte b [] = false
has_byte b (c ∷ cs) = c == b || has_byte b cs

-- A gateway has to be of IP version 4: this host has no other addresses.
abbrev takes : Takes
takes x none dev = true
takes x (some gw) dev = if has_byte b':' gw then false else true

-- What a command, or the end of a device, does to an entry.
abbrev effect : List Str → Str → Option Via → Option Via
effect (_ ∷ dev ∷ []) x entry = without dev entry
effect (_ ∷ verb ∷ dest ∷ []) x entry =
    if str_eq verb (codes "del") then changed takes (del dest) x entry else entry
effect (_ ∷ _ ∷ dest ∷ _ ∷ dev ∷ []) x entry = changed takes (add dest none dev) x entry
effect (_ ∷ _ ∷ dest ∷ _ ∷ gw ∷ _ ∷ dev ∷ []) x entry =
    changed takes (add dest (some gw) dev) x entry
effect _ x entry = entry

abbrev pub replay : List (List Str) → Str → Option Via → Option Via
replay [] x entry = entry
replay (cmd ∷ cmds) x entry = replay cmds x (effect cmd x entry)

pub replay-snoc :
    (cmds : List (List Str)) (cmd : List Str) (x : Str) (entry : Option Via)
    → replay (cmds ++ (cmd ∷ [])) x entry ≡ effect cmd x (replay cmds x entry)
replay-snoc [] cmd x entry = refl
replay-snoc (c ∷ cmds) cmd x entry = replay-snoc cmds cmd x (effect c x entry)

pub effect-words :
    (c : Change) (x : Str) (entry : Option Via) → effect (words c) x entry ≡ changed takes c x entry
effect-words (add dest none dev) x entry = refl
effect-words (add dest (some gw) dev) x entry = refl
effect-words (del dest) x entry = refl

abbrev pub initial : Str → Option Via
initial x =
    if str_eq x (codes "default")
    then some (some (codes "192.168.0.1"), codes "eth0")
    else if str_eq x (codes "10.9.0.0/16")
    then some (none, codes "eth1")
    else none

abbrev pub route_table : RouteTable host.run_ip
route_table = record {
  takes = takes;
  lookup = λ w x. replay w.routes x (initial x);
  lookup-words = λ c w x.
      replay-snoc w.routes (words c) x (initial x)
      ∙ effect-words c x (replay w.routes x (initial x));
  lookup-show = λ w x. replay-snoc w.routes _ x (initial x);
}

-- The device goes, and its routes with it.
pub dropped :
    (v : World) (x : Str)
    → route_table.lookup (host.drop_tun (codes "tun0") v) x
      ≡ without (codes "tun0") (route_table.lookup v x)
dropped v x = replay-snoc v.routes (codes "gone" ∷ codes "tun0" ∷ []) x (initial x)

or_false-true : (b : Bool) → (b || false) ≡ true → b ≡ true
or_false-true true h = refl
or_false-true false h = h

only : (y : Str) → excludes nets y (codes "10.0.0.0/8" ∷ []) ≡ true → y ≡ codes "10.0.0.0/8"
only y h = eq_of_str_eq y (codes "10.0.0.0/8") (or_false-true _ h)

pub not_there : (y : Str) → excludes nets y (codes "10.0.0.0/8" ∷ []) ≡ true → initial y ≡ none
not_there y h = subst (λ z. initial z ≡ none) (sym (only y h)) refl

-- An exclusion that the table has a route to, by another device.
abbrev known_net : VpnConfig
known_net = record config { exclude = codes "10.9.0.0/16" ∷ [] }

known_addr : server_ip nets known_net ≡ ok server_tun
unfolding server_ip
known_addr = refl

lookup-cleanup_example :
    route_table.lookup
      (cleanup nets host.run_ip
        (setup nets host.run_ip known_net ssh_ip (new nets host.run_ip, calm)).1).1.1
      (codes "10.9.0.0/16")
    ≡ none
lookup-cleanup_example =
    lookup-cleanup nets host.run_ip route_table spawns known_net ssh_ip server_tun original calm
      (shown calm) known_addr default_route refl (codes "10.9.0.0/16")

pub default_taken :
    route_table.takes (codes "default") (some (show_ip nets gateway)) (codes "eth0") ≡ true
unfolding show_ip decimal
default_taken = refl

pub default_entry : initial (codes "default") ≡ some (some (show_ip nets gateway), codes "eth0")
unfolding show_ip decimal
default_entry = refl

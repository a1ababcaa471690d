-- ===== src/Vpn/Routing/Table/Cycle.antt =====
-- The changes of the routing table by a setup and the cleanup behind it.
use x2ssh.Base.{
  List, [], ◌∷◌, ◌++◌, ◌≡◌, refl, sym, ap, ◌∙◌, subst, false, Option, none, some, Str, codes,
  str_eq, eq_of_str_eq, if◌then◌else◌, Bool-cases, inl, inr, map, or-false, if_or,
}
use mathlib.Core.List.{map-append}
use x2ssh.Net.{IpAddr, IpNets, show_ip}
use x2ssh.Vpn.IpRoute.{RouteInfo}
use x2ssh.Vpn.Routing.Commands.{
  del_default, add_via, del_net, add_commands, restore_via, redirect, del_nets,
}
use x2ssh.Vpn.Routing.Table.{
  Change, add, del, Via, words, changed, changes, gateway_text, excludes, default_via,
  default_after, entry_after, name_of, Takes, placed,
}

changes-append :
    (takes : Takes) (cs ds : List Change) (x : Str) (entry : Option Via)
    → changes takes (cs ++ ds) x entry ≡ changes takes ds x (changes takes cs x entry)
changes-append takes [] ds x entry = refl
changes-append takes (c ∷ cs) ds x entry = changes-append takes cs ds x (changed takes c x entry)

pub changed-add_other :
    (takes : Takes) (dest : Str) (gw : Option Str) (dev x : Str) (entry : Option Via)
    → str_eq x (name_of dest) ≡ false
    → changed takes (add dest gw dev) x entry ≡ entry
changed-add_other takes dest gw dev x entry h = rw h

pub changed-del_other :
    (takes : Takes) (dest x : Str) (entry : Option Via)
    → str_eq x (name_of dest) ≡ false
    → changed takes (del dest) x entry ≡ entry
changed-del_other takes dest x entry h = rw h

module _ (N : IpNets) where
  abbrev pub add_of : RouteInfo N → Str → Change
  add_of o dest = add dest (gateway_text N o.gateway) o.interface

  abbrev pub adds : RouteInfo N → List N.IpNet → List Change
  adds o [] = []
  adds o (net ∷ nets) = add_of o (N.show_net net) ∷ adds o nets

  abbrev pub dels : List N.IpNet → List Change
  dels [] = []
  dels (net ∷ nets) = del (N.show_net net) ∷ dels nets

  abbrev pub restored : Str → Option IpAddr → List Change
  restored interface none = []
  restored interface (some gw) = add (codes "default") (some (show_ip N gw)) interface ∷ []

  -- The changes of a setup and the cleanup behind it.
  abbrev pub cycle : RouteInfo N → Str → Option Str → Str → List N.IpNet → List Change
  cycle o host server tun_name nets =
      add_of o host
      ∷ del (codes "default")
      ∷ add (codes "default") server tun_name
      ∷ (adds o nets ++ (del (codes "default") ∷ (restored o.interface o.gateway ++ dels nets)))

  pub add_via-words :
      (dest : N.IpNet) (gw : Option IpAddr) (interface : Str)
      → add_via N dest gw interface ≡ words (add (N.show_net dest) (gateway_text N gw) interface)
  add_via-words dest none interface = refl
  add_via-words dest (some gw) interface = refl

  pub add_commands-words :
      (o : RouteInfo N) (nets : List N.IpNet) → add_commands N o nets ≡ map words (adds o nets)
  add_commands-words o [] = refl
  add_commands-words o (net ∷ nets) =
      rw (add_via-words net o.gateway o.interface, add_commands-words o nets) refl

  del_nets-words : (nets : List N.IpNet) → del_nets N nets ≡ map words (dels nets)
  del_nets-words [] = refl
  del_nets-words (net ∷ nets) = ap (λ cs. del_net N net ∷ cs) (del_nets-words nets)

  pub restore_via-words :
      (interface : Str) (gw : Option IpAddr)
      → restore_via N interface gw ≡ map words (restored interface gw)
  restore_via-words interface none = refl
  restore_via-words interface (some gw) = refl

  pub cycle-words :
      (o : RouteInfo N) (ssh_ip server : IpAddr) (tun_name : Str) (nets : List N.IpNet)
      → redirect N o ssh_ip tun_name server
          ++ (add_commands N o nets
              ++ (del_default ∷ (restore_via N o.interface o.gateway ++ del_nets N nets)))
        ≡ map words (cycle o (N.show_net (N.of_ip ssh_ip)) (some (show_ip N server)) tun_name nets)
  cycle-words o ssh_ip server tun_name nets =
      rw
        (
          add_via-words (N.of_ip ssh_ip) o.gateway o.interface,
          add_commands-words o nets,
          restore_via-words o.interface o.gateway,
          del_nets-words nets,
        )
        (simp map-append)

module _ (N : IpNets) (takes : Takes) where
  changes-adds :
      (o : RouteInfo N) (nets : List N.IpNet) (x : Str) (entry : Option Via)
      → excludes N x nets ≡ false
      → changes takes (adds N o nets) x entry ≡ entry
  changes-adds o [] x entry h = refl
  changes-adds o (net ∷ nets) x entry h =
      let (other, rest) = or-false (str_eq x (name_of (N.show_net net))) (excludes N x nets) h in
      ap (changes takes (adds N o nets) x) (
        changed-add_other takes (N.show_net net) (gateway_text N o.gateway) o.interface x entry
          other)
      ∙ changes-adds o nets x entry rest

  changes-dels :
      (nets : List N.IpNet) (x : Str) (entry : Option Via)
      → changes takes (dels N nets) x entry ≡ (if excludes N x nets then none else entry)
  changes-dels [] x entry = refl
  changes-dels (net ∷ nets) x entry =
      changes-dels nets x _
      ∙ if_or (str_eq x (name_of (N.show_net net))) (excludes N x nets) none entry

  changes-restored_default :
      (interface : Str) (gw : Option IpAddr)
      → changes takes (restored N interface gw) (codes "default") none
        ≡ default_via N takes interface gw
  changes-restored_default interface none = refl
  changes-restored_default interface (some gw) = refl

  changes-restored :
      (interface : Str) (gw : Option IpAddr) (x : Str) (entry : Option Via)
      → str_eq x (codes "default") ≡ false
      → changes takes (restored N interface gw) x entry ≡ entry
  changes-restored interface none x entry h = refl
  changes-restored interface (some gw) x entry h = rw h

  cycle_default :
      (o : RouteInfo N) (host tun_name : Str) (server : Option Str) (nets : List N.IpNet)
      (entry : Option Via)
      → excludes N (codes "default") nets ≡ false
      → changes takes (cycle N o host server tun_name nets) (codes "default") entry
        ≡ default_after N takes o
  cycle_default o host tun_name server nets entry h =
      let rest = restored N o.interface o.gateway ++ dels N nets in
      let tail = del (codes "default") ∷ rest in
      changes-append takes (adds N o nets) tail (codes "default")
        (placed takes (codes "default") (server, tun_name) none)
      ∙ changes-append takes (restored N o.interface o.gateway) (dels N nets) (codes "default") none
      ∙ ap (changes takes (dels N nets) (codes "default"))
          (changes-restored_default o.interface o.gateway)
      ∙ changes-dels nets (codes "default") (default_after N takes o)
      ∙ ap (λ b. if b then none else default_after N takes o) h

  cycle_other :
      (o : RouteInfo N) (host tun_name : Str) (server : Option Str) (nets : List N.IpNet) (x : Str)
      (entry : Option Via)
      → str_eq x (codes "default") ≡ false
      → changes takes (cycle N o host server tun_name nets) x entry
        ≡ (if excludes N x nets then none else changed takes (add_of N o host) x entry)
  cycle_other o host tun_name server nets x entry h =
      let first = changed takes (add_of N o host) x entry in
      let added = changes takes (adds N o nets) x first in
      let rest = restored N o.interface o.gateway ++ dels N nets in
      let tail = del (codes "default") ∷ rest in
      ap (changes takes (adds N o nets ++ tail) x) (
        changed-add_other takes (codes "default") server tun_name x _ h
        ∙ changed-del_other takes (codes "default") x first h)
      ∙ changes-append takes (adds N o nets) tail x first
      ∙ ap (changes takes rest x) (changed-del_other takes (codes "default") x added h)
      ∙ changes-append takes (restored N o.interface o.gateway) (dels N nets) x added
      ∙ ap (changes takes (dels N nets) x) (changes-restored o.interface o.gateway x added h)
      ∙ changes-dels nets x added
      ∙ elim (Bool-cases (excludes N x nets)) [
        | inl yes' ↦ rw yes' refl
        | inr no' ↦
            ap (λ e. if excludes N x nets then none else e) (changes-adds o nets x first no')
      ]

  pub cycle-changes :
      (o : RouteInfo N) (host tun_name : Str) (server : Option Str) (nets : List N.IpNet) (x : Str)
      (entry : Option Via)
      → excludes N (codes "default") nets ≡ false
      → changes takes (cycle N o host server tun_name nets) x entry
        ≡ entry_after N takes o host nets x entry
  cycle-changes o host tun_name server nets x entry h =
      elim (Bool-cases (str_eq x (codes "default"))) [
        | inl yes' ↦
            subst
              (λ y.
                changes takes (cycle N o host server tun_name nets) y entry
                ≡ entry_after N takes o host nets y entry)
              (sym (eq_of_str_eq x (codes "default") yes'))
              (cycle_default o host tun_name server nets entry h)
        | inr no' ↦
            let other =
              if excludes N x nets then none else changed takes (add_of N o host) x entry in
            cycle_other o host tun_name server nets x entry no'
            ∙ ap (λ b. if b then default_after N takes o else other) (sym no')
      ]

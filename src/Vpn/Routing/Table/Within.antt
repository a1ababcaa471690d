-- ===== src/Vpn/Routing/Table/Within.antt =====
-- The routing table behind a setup, while the tunnel runs.
use x2ssh.Base.{
  List, [], ◌∷◌, ◌++◌, ◌≡◌, refl, sym, ap, ◌∙◌, subst, Bool, true, false, ◌||◌, Option, none, some,
  Str, codes, str_eq, eq_of_str_eq, if◌then◌else◌, Bool-cases, inl, inr, ok, Exec, map,
}
use x2ssh.Net.{IpAddr, IpNets, show_ip}
use x2ssh.Config.{VpnConfig, server_ip}
use x2ssh.Vpn.IpRoute.{RouteInfo, get_default_route}
use x2ssh.Vpn.Routing.{new, setup}
use x2ssh.Vpn.Routing.Commands.{issue, issue-append, redirect, add_commands, Spawns, parsed}
use x2ssh.Vpn.Routing.Setup.{setup_lem}
use x2ssh.Vpn.Routing.Table.{
  Change, add, del, Via, words, name_of, Takes, added, placed, changed, changes, RouteTable,
  gateway_text, excludes, entry_within,
}
use x2ssh.Vpn.Routing.Table.Cycle.{
  add_of, adds, add_via-words, add_commands-words, changed-add_other, changed-del_other,
}
use x2ssh.Vpn.Routing.Table.Restore.{lookup-issue, lookup-get_default_route}

added_again :
    (taken : Bool) (via : Via) (entry : Option Via)
    → added taken via (added taken via entry) ≡ added taken via entry
added_again false via entry = refl
added_again true via none = refl
added_again true via (some old) = refl

-- Two routes to a destination by the same gateway are one.
added_twice :
    (a b taken : Bool) (via : Via) (entry : Option Via)
    → (let first = if a then added taken via entry else entry in
        if b then added taken via first else first)
      ≡ (if a || b then added taken via entry else entry)
added_twice true true taken via entry = added_again taken via entry
added_twice true false taken via entry = refl
added_twice false b taken via entry = refl

module _ (N : IpNets) (takes : Takes) where
  changes-adds-placed :
      (o : RouteInfo N) (nets : List N.IpNet) (x : Str) (entry : Option Via)
      → changes takes (adds N o nets) x entry ≡ (
          if excludes N x nets
          then placed takes x (gateway_text N o.gateway, o.interface) entry
          else entry)
  changes-adds-placed o [] x entry = refl
  changes-adds-placed o (net ∷ nets) x entry =
      changes-adds-placed o nets x _
      ∙ added_twice (str_eq x (name_of (N.show_net net))) (excludes N x nets) (takes x _ _) _ entry

  -- The changes of a setup.
  abbrev begun : RouteInfo N → Str → Option Str → Str → List N.IpNet → List Change
  begun o host server tun_name nets =
      add_of N o host
      ∷ del (codes "default")
      ∷ add (codes "default") server tun_name
      ∷ adds N o nets

  begun-words :
      (o : RouteInfo N) (ssh_ip server : IpAddr) (tun_name : Str) (nets : List N.IpNet)
      → redirect N o ssh_ip tun_name server ++ add_commands N o nets
        ≡ map words (begun o (N.show_net (N.of_ip ssh_ip)) (some (show_ip N server)) tun_name nets)
  begun-words o ssh_ip server tun_name nets =
      rw (add_via-words N (N.of_ip ssh_ip) o.gateway o.interface, add_commands-words N o nets) refl

  begun_default :
      (o : RouteInfo N) (host tun_name : Str) (server : Option Str) (nets : List N.IpNet)
      (entry : Option Via)
      → excludes N (codes "default") nets ≡ false
      → changes takes (begun o host server tun_name nets) (codes "default") entry
        ≡ placed takes (codes "default") (server, tun_name) none
  begun_default o host tun_name server nets entry h =
      changes-adds-placed o nets (codes "default") _ ∙ rw h refl

  begun_other :
      (o : RouteInfo N) (host tun_name : Str) (server : Option Str) (nets : List N.IpNet) (x : Str)
      (entry : Option Via)
      → str_eq x (codes "default") ≡ false
      → changes takes (begun o host server tun_name nets) x entry ≡ (
          if str_eq x (name_of host) || excludes N x nets
          then placed takes x (gateway_text N o.gateway, o.interface) entry
          else entry)
  begun_other o host tun_name server nets x entry h =
      let first = changed takes (add_of N o host) x entry in
      ap (changes takes (adds N o nets) x) (
        changed-add_other takes (codes "default") server tun_name x _ h
        ∙ changed-del_other takes (codes "default") x first h)
      ∙ changes-adds-placed o nets x first
      ∙ added_twice (str_eq x (name_of host)) (excludes N x nets) (takes x _ _) _ entry

  begun-changes :
      (o : RouteInfo N) (host tun_name : Str) (server : Option Str) (nets : List N.IpNet) (x : Str)
      (entry : Option Via)
      → excludes N (codes "default") nets ≡ false
      → changes takes (begun o host server tun_name nets) x entry
        ≡ entry_within N takes o host server tun_name nets x entry
  begun-changes o host tun_name server nets x entry h =
      elim (Bool-cases (str_eq x (codes "default"))) [
        | inl yes' ↦
            subst
              (λ y.
                changes takes (begun o host server tun_name nets) y entry
                ≡ entry_within N takes o host server tun_name nets y entry)
              (sym (eq_of_str_eq x (codes "default") yes'))
              (begun_default o host tun_name server nets entry h)
        | inr no' ↦ begun_other o host tun_name server nets x entry no' ∙ rw no' refl
      ]

module _ (N : IpNets) {W : Type 0} (run_ip : List Str → Exec W Str) (T : RouteTable run_ip)
    (sp : Spawns run_ip) where
  -- The routing table behind a setup that knows the original default route, also one that has
  -- failed at an exclusion that does not parse, if none of them is the default route. The default
  -- route goes by the TUN device if the host takes it, and else there is none. The SSH server and
  -- each exclusion up to that one have their own route, if they had one before, and otherwise one
  -- by the original gateway, if the host takes that. Every other entry is as it was.
  pub lookup-setup :
      (config : VpnConfig) (ssh_ip server : IpAddr) (o : RouteInfo N) (w w₁ : W)
      → server_ip N config ≡ ok server
      → get_default_route N run_ip w ≡ (ok (some o), w₁)
      → excludes N (codes "default") (parsed N config.exclude).0 ≡ false
      → (x : Str)
      → T.lookup (setup N run_ip config ssh_ip (new N run_ip, w)).1.1 x
        ≡ entry_within N T.takes o
            (N.show_net (N.of_ip ssh_ip))
            (some (show_ip N server))
            config.client_tun
            (parsed N config.exclude).0
            x
            (T.lookup w x)
  lookup-setup config ssh_ip server o w w₁ valid known no_default x =
      let nets = (parsed N config.exclude).0 in
      let host = N.show_net (N.of_ip ssh_ip) in
      let text = some (show_ip N server) in
      let asked = begun N T.takes o host text config.client_tun nets in
      ap (λ r. T.lookup r.1.1 x)
        (setup_lem N run_ip sp config ssh_ip server o (new N run_ip) w w₁ valid known)
      ∙ ap (λ v. T.lookup v x)
          (sym (
            issue-append run_ip (redirect N o ssh_ip config.client_tun server)
              (add_commands N o nets) w₁))
      ∙ ap (λ cs. T.lookup (issue run_ip cs w₁) x)
          (begun-words N T.takes o ssh_ip server config.client_tun nets)
      ∙ lookup-issue N run_ip T asked w₁ x
      ∙ begun-changes N T.takes o host config.client_tun text nets x (T.lookup w₁ x) no_default
      ∙ ap (entry_within N T.takes o host text config.client_tun nets x)
          (ap (λ r. T.lookup r.1 x) (sym known) ∙ lookup-get_default_route N run_ip T w x)

-- ===== src/Vpn/Routing/Table/Restore.antt =====
-- The routing table behind a setup and its cleanup.
use x2ssh.Base.{
  List, [], ◌∷◌, ◌≡◌, refl, sym, ap, ◌∙◌, true, false, none, some, Str, codes, str_eq, eq_of_str_eq,
  Bool-cases, inl, inr, Result-cases, ok, Exec, map, if_true,
}
use x2ssh.Net.{IpAddr, IpNets, show_ip}
use x2ssh.Config.{VpnConfig, server_ip}
use x2ssh.Vpn.IpRoute.{RouteInfo, get_default_route}
use x2ssh.Vpn.Routing.{new, setup, cleanup}
use x2ssh.Vpn.Routing.Commands.{Command, issue, Spawns, parsed}
use x2ssh.Vpn.Routing.Setup.Undone.{cleanup-setup-issue}
use x2ssh.Vpn.Routing.Table.{
  Change, words, changes, RouteTable, excludes, name_of, added, default_via, entry_after,
}
use x2ssh.Vpn.Routing.Table.Cycle.{cycle, cycle-words, cycle-changes}

module _ (N : IpNets) {W : Type 0} (run_ip : List Str → Exec W Str) (T : RouteTable run_ip) where
  pub lookup-issue :
      (cs : List Change) (w : W) (x : Str)
      → T.lookup (issue run_ip (map words cs) w) x ≡ changes T.takes cs x (T.lookup w x)
  lookup-issue [] w x = refl
  lookup-issue (c ∷ cs) w x =
      lookup-issue cs (run_ip (words c) w).1 x ∙ ap (changes T.takes cs x) (T.lookup-words c w x)

  show_route : Command
  show_route = codes "route" ∷ codes "show" ∷ codes "default" ∷ []

  get_default_route-world : (w : W) → (get_default_route N run_ip w).1 ≡ (run_ip show_route w).1
  unfolding get_default_route show_route
  get_default_route-world w = elim (Result-cases (run_ip show_route w).0) [
    | inl (out, e) ↦ rw e refl
    | inr (e, q) ↦ rw q refl
  ]

  pub lookup-get_default_route :
      (w : W) (x : Str) → T.lookup (get_default_route N run_ip w).1 x ≡ T.lookup w x
  unfolding show_route
  lookup-get_default_route w x =
      ap (λ v. T.lookup v x) (get_default_route-world w) ∙ T.lookup-show w x

  module _ (sp : Spawns run_ip) (config : VpnConfig) (ssh_ip server : IpAddr) (o : RouteInfo N)
      (w w₁ : W) (valid : server_ip N config ≡ ok server)
      (known : get_default_route N run_ip w ≡ (ok (some o), w₁))
      (no_default : excludes N (codes "default") (parsed N config.exclude).0 ≡ false) where
    -- The routing table behind a setup and its cleanup, at every destination, if no exclusion is
    -- the default route. The default route is the one that `get_default_route` had found, or none
    -- if that one has no gateway or the host does not take it. A destination among the exclusions
    -- has no route, also if it had one before. The SSH server has its route of before, or else one
    -- by the original gateway if the host takes that. Every other entry is as it was.
    pub lookup-cleanup :
        (x : Str)
        → T.lookup (cleanup N run_ip (setup N run_ip config ssh_ip (new N run_ip, w)).1).1.1 x
          ≡ entry_after N T.takes o
              (N.show_net (N.of_ip ssh_ip))
              (parsed N config.exclude).0
              x
              (T.lookup w x)
    lookup-cleanup x =
        let nets = (parsed N config.exclude).0 in
        let host = N.show_net (N.of_ip ssh_ip) in
        let text = some (show_ip N server) in
        ap (λ r. T.lookup r.1.1 x)
          (cleanup-setup-issue N run_ip sp config ssh_ip server o w w₁ valid known)
        ∙ ap (λ cs. T.lookup (issue run_ip cs w₁) x)
            (cycle-words N o ssh_ip server config.client_tun nets)
        ∙ lookup-issue (cycle N o host text config.client_tun nets) w₁ x
        ∙ cycle-changes N T.takes o host config.client_tun text nets x (T.lookup w₁ x) no_default
        ∙ ap (entry_after N T.takes o host nets x)
            (ap (λ r. T.lookup r.1 x) (sym known) ∙ lookup-get_default_route w x)

    -- Where the table has the default route that `get_default_route` has read, with a gateway by
    -- which the host takes it, and no route yet to any of the exclusions, a cleanup behind a setup leaves every entry as it was
    -- before both, but for that of the SSH server.
    pub cleanup-restores :
        (gw : IpAddr)
        → o.gateway ≡ some gw
        → T.lookup w (codes "default") ≡ some (some (show_ip N gw), o.interface)
        → T.takes (codes "default") (some (show_ip N gw)) o.interface ≡ true
        → ((y : Str) → excludes N y (parsed N config.exclude).0 ≡ true → T.lookup w y ≡ none)
        → (x : Str) → str_eq x (name_of (N.show_net (N.of_ip ssh_ip))) ≡ false
        → T.lookup (cleanup N run_ip (setup N run_ip config ssh_ip (new N run_ip, w)).1).1.1 x
          ≡ T.lookup w x
    cleanup-restores gw has_gw agrees taken fresh x other =
        lookup-cleanup x ∙ elim (Bool-cases (str_eq x (codes "default"))) [
          | inl yes' ↦
              if_true (str_eq x (codes "default")) _ _ yes'
              ∙ ap (default_via N T.takes o.interface) has_gw
              ∙ ap (λ b. added b (some (show_ip N gw), o.interface) none) taken
              ∙ sym agrees
              ∙ ap (T.lookup w) (sym (eq_of_str_eq x (codes "default") yes'))
          | inr no' ↦ elim (Bool-cases (excludes N x (parsed N config.exclude).0)) [
            | inl listed ↦ rw (no', listed) (sym (fresh x listed))
            | inr free ↦ rw (no', free, other) refl
          ]
        ]

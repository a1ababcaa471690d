-- ===== src/Main/Tunnelling.antt =====
-- `main` as a VPN client.
use x2ssh.Base.{
  ℕ, ◌≡◌, refl, ap, ◌∙◌, ◌≤◌, List, ◌∷◌, ◌++◌, true, false, none, some, Str, codes, str_eq, Result,
  ok, Exec, >>=-ok,
}
use x2ssh.Net.{IpAddr, IpNets, show_ip}
use x2ssh.Ssh.{Ssh}
use x2ssh.TunRs.{Tun}
use x2ssh.Retry.Float.{F64}
use x2ssh.Transport
use x2ssh.Transport.{Transport}
use x2ssh.Config.{VpnConfig, server_ip}
use x2ssh.Config.Load.{AppTable, load}
use x2ssh.Cli.{Cli, transport_config, vpn_config}
use x2ssh.Cli.Address.{Lacks}
use x2ssh.Vpn.Keeps.{Unseen}
use x2ssh.Vpn.IpRoute.{RouteInfo, get_default_route}
use x2ssh.Vpn.Routing.Commands.{Spawns, parsed}
use x2ssh.Vpn.Routing.Table.{RouteTable, excludes, name_of}
use x2ssh.Vpn.Tun.{create}
use x2ssh.Vpn.Session.{Host, VpnSession, start}
use x2ssh.Vpn.Session.Cleaning.{hooks}
use x2ssh.Vpn.Session.Cleaning.Steps.{calls_left}
use x2ssh.Vpn.Session.Cleaning.Changes.{cleaning_moves}
use x2ssh.Vpn.Session.Run.{run_vpn_tasks}
use x2ssh.Vpn.Session.Run.Restores.{run_vpn_tasks-restores}
use x2ssh.Main.{
  Outside, Schedule, finished, finishes, resolve_host, run_target, start_vpn, vpn_target, with_mode,
  main,
}
use x2ssh.Main.Proxying.{config_of, transport_config-append}

module _ {W : Type 0} where
  -- The address of a host is the first of its name's, whatever the port.
  pub resolve_host-first :
      (lookup_host : Str → Exec W (List (IpAddr × ℕ))) (host : Str) (ip : IpAddr) (port : ℕ)
      (addrs : List (IpAddr × ℕ)) (w w₁ : W)
      → lookup_host (host ++ codes ":22") w ≡ (ok ((ip, port) ∷ addrs), w₁)
      → resolve_host lookup_host host w ≡ (ok ip, w₁)
  unfolding resolve_host
  resolve_host-first lookup_host host ip port addrs w w₁ h = rw h refl

module _ (F : F64) (N : IpNets) {W : Type 0} (S : Ssh W) (H : Host W) (O : Outside F W) (T : Tun)
    (parse_toml : Str → Result (AppTable F)) (sched : Schedule F N S H O T) (cli : Cli F)
    (user host : Str) (config : VpnConfig) (transport : Transport F S) (ip : IpAddr) (port : ℕ)
    (addrs : List (IpAddr × ℕ)) (v v₁ v₂ w : W) (lacks : Lacks b'@' user)
    (given : cli.destination ≡ user ++ (b'@' ∷ host))
    (configured : vpn_config O.exists (load F O.read_to_string parse_toml) cli v ≡ (ok config, v₁))
    (reached : Transport.connect F S (config_of cli user host) v₁ ≡ (ok transport, v₂))
    (resolved : O.lookup_host (host ++ codes ":22") v₂ ≡ (ok ((ip, port) ∷ addrs), w)) where
  vpn_target-ok : vpn_target F N S H O T parse_toml sched cli v ≡ (ok (config, transport, ip), w)
  unfolding vpn_target
  vpn_target-ok =
      >>=-ok (vpn_config O.exists (load F O.read_to_string parse_toml) cli) _ v configured
      ∙ >>=-ok (λ x. (transport_config cli, x)) _ v₁
          (ap (λ r. (r, v₁))
            (transport_config-append F N S H O T parse_toml sched cli user host lacks given))
      ∙ >>=-ok (Transport.connect F S (config_of cli user host)) _ v₁ reached
      ∙ >>=-ok (resolve_host O.lookup_host host) _ v₂
          (resolve_host-first O.lookup_host host ip port addrs v₂ w resolved)

  start_vpn-run_vpn :
      start_vpn F N S H O T parse_toml sched cli v
      ≡ run_vpn_tasks F N S H T transport config O.getuid ip sched.turns sched.moves sched.device w
  unfolding start_vpn run_target
  start_vpn-run_vpn = ap (λ t. run_target F N S H O T parse_toml sched t.0 t.1) vpn_target-ok

  -- `x2ssh --vpn USER@HOST` without -D, as root, with an `ip` that can be run: the configuration is
  -- read, the connection to HOST as USER is made, and the session starts with the first address of
  -- HOST as the one to keep out of the tunnel. The table has the default route that
  -- `get_default_route` reads, with a gateway by which the host takes it; no exclusion is that
  -- route or has one. Then `main` returns Ok after as many calls as the cleanup has, whatever turns
  -- the tasks have and whether one of them or Ctrl+C ends the forwarding, with the tasks going on
  -- beside the cleanup then, and every entry of the routing table but that of HOST's first address
  -- is what it was when the TUN device had been created. The session is not dropped yet then: the
  -- device, with the routes that the kernel has for it, goes behind that.
  pub main-vpn :
      (sp : Spawns H.run_ip) (R : RouteTable H.run_ip)
      (U : (x : Str) → Unseen S (λ z. R.lookup z x)) (server gw : IpAddr) (o : RouteInfo N)
      (device : H.Device) (session : VpnSession F N S H) (w₀ w₁ w₂ w₃ : W)
      → cli.socks_addr ≡ none
      → cli.vpn ≡ true
      → O.getuid ≡ 0
      → create H.build_tun N config w ≡ (ok device, w₀)
      → H.new_connection w₀ ≡ (ok tt, w₁)
      → server_ip N config ≡ ok server
      → get_default_route N H.run_ip w₁ ≡ (ok (some o), w₂)
      → o.gateway ≡ some gw
      → R.lookup w₁ (codes "default") ≡ some (some (show_ip N gw), o.interface)
      → R.takes (codes "default") (some (show_ip N gw)) o.interface ≡ true
      → excludes N (codes "default") (parsed N config.exclude).0 ≡ false
      → ((y : Str) → excludes N y (parsed N config.exclude).0 ≡ true → R.lookup w₁ y ≡ none)
      → start F N S H transport config ip w ≡ (ok session, w₃)
      → calls_left F N S H transport (hooks config.pre_down) session ≤ cleaning_moves sched.moves
      → let (r, end) = main F N S H O T parse_toml sched cli v in
        (r ≡ some (ok finished))
        × ((x : Str)
            → str_eq x (name_of (N.show_net (N.of_ip ip))) ≡ false
            → R.lookup end x ≡ R.lookup w₁ x)
  unfolding main with_mode
  main-vpn sp R U server gw o device session w₀ w₁ w₂ w₃ no_socks vpn root created connected valid
        known has_gw agrees taken no_default fresh started enough =
      let (result, looks) =
        run_vpn_tasks-restores F N S H transport config sp R U ip server gw o device session w w₀ w₁
          w₂ w₃ created connected valid known has_gw agrees taken no_default fresh started T
          sched.device sched.turns sched.moves enough in
      let run =
        start_vpn-run_vpn
        ∙ ap
            (λ uid.
              run_vpn_tasks F N S H T transport config uid ip sched.turns sched.moves sched.device
                w)
            root in
      let whole =
        ap (λ socks. with_mode F N S H O T parse_toml sched cli socks cli.vpn v) no_socks
        ∙ ap (λ b. with_mode F N S H O T parse_toml sched cli none b v) vpn
        ∙ ap (λ r. (finishes F N S H O T parse_toml sched r.0, r.1)) run in
      (
        ap (λ r. r.0) whole ∙ ap (finishes F N S H O T parse_toml sched) result,
        λ x other. ap (λ r. R.lookup r.1 x) whole ∙ looks x other,
      )

-- ===== src/Vpn/Session/Run/Stranded.antt =====
-- A run whose session does not start.
use x2ssh.Base.{
  ◌≡◌, refl, ap, ◌∙◌, List, false, none, some, Option, Bool-cases, inl, inr, str_eq_self, Str,
  codes, Error, ok, err,
}
use x2ssh.Net.{IpAddr, IpNets, show_ip}
use x2ssh.Ssh.{Ssh}
use x2ssh.TunRs.{Tun}
use x2ssh.Retry.Float.{F64}
use x2ssh.Transport.{Transport}
use x2ssh.Config.{VpnConfig, server_ip}
use x2ssh.Vpn.Keeps.{Unseen}
use x2ssh.Vpn.Forward.Tasks.{Turn}
use x2ssh.Vpn.IpRoute.{RouteInfo, get_default_route}
use x2ssh.Vpn.Routing.Commands.{Spawns, parsed}
use x2ssh.Vpn.Routing.Table.{RouteTable, Takes, placed, excludes, entry_within, without}
use x2ssh.Vpn.Routing.Table.Within.{lookup-setup}
use x2ssh.Vpn.Tun.{create}
use x2ssh.Vpn.Session.{Host, start}
use x2ssh.Vpn.Session.Cleaning.{Move}
use x2ssh.Vpn.Session.Run.{run_vpn_tasks}
use x2ssh.Vpn.Session.Run.Begun.{start-Failed}

-- A route by a device, where there was none, goes with the device, also if it was not taken.
without-placed :
    (takes : Takes) (x : Str) (gw : Option Str) (dev : Str)
    → without dev (placed takes x (gw, dev) none) ≡ none
without-placed takes x gw dev = elim (Bool-cases (takes x gw dev)) [
  | inl taken ↦ rw (taken, str_eq_self dev) refl
  | inr refused ↦ rw refused refl
]

module _ (F : F64) (N : IpNets) {W : Type 0} (S : Ssh W) (H : Host W) (transport : Transport F S)
    (config : VpnConfig) where
  run_vpn_tasks-start_err :
      (T : Tun) (ssh_ip : IpAddr) (e : Error) (ts : List Turn) (ms : List Move) (tun : T.State)
      (w w₁ : W)
      → start F N S H transport config ssh_ip w ≡ (err e, w₁)
      → run_vpn_tasks F N S H T transport config 0 ssh_ip ts ms tun w ≡ (some (err e), w₁)
  unfolding run_vpn_tasks
  run_vpn_tasks-start_err T ssh_ip e ts ms tun w w₁ failed = rw failed refl

  -- As root, with an `ip` that can be run and no exclusion of the default route: once the TUN device
  -- exists and a default route was found, it does not matter what makes the session fail to start,
  -- an exclusion that does not parse, the deployment or the start of the agent, or a PostUp hook.
  -- `run_vpn` returns that error. The device is dropped, and takes its routes with it; but for
  -- these, the routing table is left as while packets are forwarded: there is no default route, and
  -- the SSH server and each exclusion, up to the first that does not parse, have the route that
  -- they had, or else one by the original gateway if the host takes that.
  pub run_vpn_stranded :
      (sp : Spawns H.run_ip) (R : RouteTable H.run_ip)
      (U : (x : Str) → Unseen S (λ w. R.lookup w x)) (T : Tun) (ssh_ip server : IpAddr)
      (o : RouteInfo N) (device : H.Device) (e : Error) (ts : List Turn) (ms : List Move)
      (tun : T.State) (w w₀ w₁ w₂ w₃ : W)
      → ((v : W) (x : Str)
          → R.lookup (H.drop_tun device v) x ≡ without config.client_tun (R.lookup v x))
      → create H.build_tun N config w ≡ (ok device, w₀)
      → H.new_connection w₀ ≡ (ok tt, w₁)
      → server_ip N config ≡ ok server
      → get_default_route N H.run_ip w₁ ≡ (ok (some o), w₂)
      → excludes N (codes "default") (parsed N config.exclude).0 ≡ false
      → start F N S H transport config ssh_ip w ≡ (err e, w₃)
      → (run_vpn_tasks F N S H T transport config 0 ssh_ip ts ms tun w ≡ (some (err e), w₃))
        × ((x : Str)
            → R.lookup w₃ x
              ≡ without config.client_tun (
                  entry_within N R.takes o
                    (N.show_net (N.of_ip ssh_ip))
                    (some (show_ip N server))
                    config.client_tun
                    (parsed N config.exclude).0
                    x
                    (R.lookup w₁ x)))
        × (R.lookup w₃ (codes "default") ≡ none)
  run_vpn_stranded sp R U T ssh_ip server o device e ts ms tun w w₀ w₁ w₂ w₃ gone created connected
        valid known no_default failed =
      let looks = λ (x : Str).
        let (w₄, last, same) =
          start-Failed F N S H transport config (λ v. R.lookup v x) (U x) ssh_ip device e w w₀ w₁ w₃
            created connected failed in
        ap (λ v. R.lookup v x) last
        ∙ gone w₄ x
        ∙ ap (without config.client_tun) (
            same
            ∙ lookup-setup N H.run_ip R sp config ssh_ip server o w₁ w₂ valid known no_default x) in
      (
        run_vpn_tasks-start_err T ssh_ip e ts ms tun w w₃ failed,
        looks,
        looks (codes "default")
            ∙ without-placed R.takes (codes "default") (some (show_ip N server)) config.client_tun,
      )

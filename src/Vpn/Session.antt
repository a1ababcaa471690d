-- ===== src/Vpn/Session.antt =====
-- x2ssh/src/vpn/session.rs and vpn.rs: a VPN session from start to cleanup.
pub mod Lifecycle
pub mod Drop
pub mod Cleaning
pub mod Run
use x2ssh.Base.{ℕ, List, [], ◌∷◌, Str, Bool, true, false, ◌==◌, if◌then◌else◌, not_root}
use x2ssh.Base.{Result, ok, err, Exec, pure, raise, lift, ◌>>=◌, ◌>>◌}
use x2ssh.Net.{IpAddr, IpNets}
use x2ssh.Ssh.{Ssh}
use x2ssh.Retry.Float.{F64}
use x2ssh.Transport.{Transport}
use x2ssh.Config.{VpnConfig}
use x2ssh.Vpn.Agent.{close}
use x2ssh.Vpn.Deploy
use x2ssh.Vpn.Deploy.{AgentChannel}
use x2ssh.Vpn.Hooks.{run_post_up, run_pre_down}
use x2ssh.Vpn.Routing
use x2ssh.Vpn.Routing.{RoutingState}
use x2ssh.Vpn.Tun.{Ipv4, create}

-- What a session uses of the outside: the `ip` command, the TUN builder, the netlink connection,
-- the embedded agent, and the text of a command's output in a message.
pub record Host (W : Type 0) : Type 1 where
  pub Device : Type 0
  -- The device is taken away, and the kernel takes its routes away.
  pub drop_tun : Device → W → W
  pub run_ip : List Str → Exec W Str
  pub build_tun : Str → Ipv4 → ℕ → ℕ → Exec W Device
  pub new_connection : Exec W (Unit {0})
  pub agent_binary : List ℕ
  pub show : List ℕ → Str

module _ (F : F64) (N : IpNets) {W : Type 0} (S : Ssh W) (H : Host W) where
  pub record VpnSession : Type 0 where
    pub tun : H.Device
    pub routing : RoutingState N
    pub agent : AgentChannel S
    pub ssh_server_ip : IpAddr
    pub cleaned_up : Bool

  -- A method of the manager on a local variable: its state is kept if it succeeds.
  abbrev pub kept : Result (Unit {0}) × (RoutingState N × W) → Result (RoutingState N) × W
  kept (ok _, (state, w)) = (ok state, w)
  kept (err e, (state, w)) = (err e, w)

  unfoldable pub setup_routing : VpnConfig → IpAddr → Exec W (RoutingState N)
  setup_routing config ssh_server_ip w =
      kept (Routing.setup N H.run_ip config ssh_server_ip (Routing.new N H.run_ip, w))

  -- The part of `start` behind the creation of the device.
  unfoldable pub start_with : Transport F S → VpnConfig → IpAddr → H.Device → Exec W VpnSession
  start_with transport config ssh_server_ip tun = do
    H.new_connection
    routing ← setup_routing config ssh_server_ip
    Deploy.deploy F S H.agent_binary transport
    agent ← Deploy.start F S transport config.server_address
    run_post_up F S H.show transport config
    pure (record {
      tun = tun;
      routing = routing;
      agent = agent;
      ssh_server_ip = ssh_server_ip;
      cleaned_up = false;
    })

  -- The local variable `tun` is dropped where `?` leaves the function.
  abbrev pub or_dropped : H.Device → Result VpnSession × W → Result VpnSession × W
  or_dropped tun (ok session, w) = (ok session, w)
  or_dropped tun (err e, w) = (err e, H.drop_tun tun w)

  unfoldable pub start : Transport F S → VpnConfig → IpAddr → Exec W VpnSession
  unfolding start_with
  start transport config ssh_server_ip = do
    tun ← create H.build_tun N config
    λ w. or_dropped tun (start_with transport config ssh_server_ip tun w)

  -- The part of `cleanup` behind its guard; the errors of the last two calls are only logged.
  unfoldable pub tear_down : Transport F S → VpnConfig → VpnSession → W → VpnSession × W
  tear_down transport config self w =
      let w₁ = run_pre_down F S transport config w in
      let w₂ = (close S self.agent.writer w₁).1 in
      let (routing, w₃) = (Routing.cleanup N H.run_ip (self.routing, w₂)).1 in
      (record self { routing = routing; cleaned_up = true }, w₃)

  unfoldable pub cleanup :
      Transport F S → VpnConfig → VpnSession → W → Result (Unit {0}) × VpnSession × W
  cleanup transport config self w =
      let (self', w') = tear_down transport config self w in
      if self.cleaned_up then (ok tt, self, w) else (ok tt, self', w')

  -- `check_root` on Linux.
  unfoldable pub check_root : ℕ → Exec W (Unit {0})
  check_root uid = if uid == 0 then pure tt else raise not_root

-- ===== src/Examples/Lifecycle.antt =====
-- A session from its start to its end.
use x2ssh.Base.{◌≡◌, refl, [], ◌∷◌, none, some, codes, decimal}
use x2ssh.Base.{true, false, foreign, ok, err}
use x2ssh.Net.{show_ip}
use x2ssh.Net.Parse.{split_whitespace, first_line, parse_ipv4}
use x2ssh.Retry.Float.{exact}
use x2ssh.Transport.{open_session_channel}
use x2ssh.Config.{server_ip, client_ip}
use x2ssh.Vpn.Deploy.{AgentChannel, deploy, deploy_exit}
use x2ssh.Vpn.Hooks.{run_post_up}
use x2ssh.Vpn.IpRoute.{RouteInfo, get_default_route}
use x2ssh.Vpn.Routing.{RoutingState, new, setup, cleanup}
use x2ssh.Vpn.Routing.Commands.{del_default}
use x2ssh.Vpn.Session
use x2ssh.Vpn.Deploy
use x2ssh.Vpn.Routing
use x2ssh.Vpn.IpRoute
use x2ssh.Vpn.Session.{VpnSession}
use x2ssh.Vpn.Session.Lifecycle.{start_leaves_routes}
use x2ssh.Vpn.Tun.{create}
use x2ssh.Examples.World.{World, calm, server, gateway, nets, host}
use x2ssh.Base.{ℕ}
use x2ssh.Vpn.Session.Drop.{Runtime, drop, cleanup-idle}
use x2ssh.Examples.Session.{self, config, original, server_tun, ssh_ip, spawns, shown}

abbrev session : VpnSession exact nets server host
session = record {
  tun = codes "tun0";
  routing = record { original_default_route = some original; exclusion_routes = [] };
  agent = record { reader = record { inbox = []; buffer = [] }; writer = 3 };
  ssh_server_ip = ssh_ip;
  cleaned_up = false;
}

-- A thread inside of the runtime, where `block_on` panics.
abbrev inside : Runtime World
inside = record { Handle = ℕ; try_current = λ w. (ok 0, w); block_on = λ rt future w. (none, w) }

cleanup-idle_example :
    let after = Session.cleanup exact nets server host self config session calm in
    (Session.cleanup exact nets server host self config after.1 after.2 ≡ (ok tt, after.1, after.2))
    × (drop exact nets server host inside after.1 after.2 ≡ (some tt, after.2))
cleanup-idle_example = cleanup-idle exact nets server host inside self config session calm

-- The routes as a session leaves them, and the commands on the server.
abbrev pub started : World
started = record calm {
  sent = 1 ∷ 2 ∷ [];
  routes =
      (codes "route" ∷ codes "show" ∷ codes "default" ∷ [])
      ∷ (codes "route"
          ∷ codes "add"
          ∷ codes "server"
          ∷ codes "via"
          ∷ codes "192.168.0.1"
          ∷ codes "dev"
          ∷ codes "eth0"
          ∷ [])
      ∷ del_default
      ∷ (codes "route"
          ∷ codes "add"
          ∷ codes "default"
          ∷ codes "via"
          ∷ codes "10.8.0.1"
          ∷ codes "dev"
          ∷ codes "tun0"
          ∷ [])
      ∷ (codes "route"
          ∷ codes "add"
          ∷ codes "10.0.0.0/8"
          ∷ codes "via"
          ∷ codes "192.168.0.1"
          ∷ codes "dev"
          ∷ codes "eth0"
          ∷ [])
      ∷ [];
  remote =
      codes "cat > /tmp/x2ssh-agent && chmod +x /tmp/x2ssh-agent"
      ∷ codes "sudo /tmp/x2ssh-agent --ip 10.8.0.1/24"
      ∷ [];
}

abbrev pub running : VpnSession exact nets server host
running = record session {
  routing = record {
    original_default_route = some original;
    exclusion_routes =
        record {
          destination = codes "10.0.0.0/8";
          gateway = some gateway;
          interface = codes "eth0";
        }
        ∷ [];
  };
}

pub session_starts :
    Session.start exact nets server host self config ssh_ip calm ≡ (ok running, started)
unfolding Session.start Session.start_with Session.setup_routing create client_ip setup new
    server_ip get_default_route split_whitespace first_line parse_ipv4 deploy open_session_channel
    Deploy.start run_post_up show_ip decimal Routing.save_original_default_route
    Routing.route_ssh_server_via_original_gateway Routing.set_default_route_via_tun
    Routing.add_exclusions Routing.add_exclusion_route IpRoute.delete_default_route
    IpRoute.add_default_route IpRoute.add_route_via_gateway
session_starts = refl

abbrev pub broken : World
broken = record calm { broken = true }

abbrev deployed : World
deployed = record broken {
  routes =
      (codes "route" ∷ codes "show" ∷ codes "default" ∷ [])
      ∷ (codes "route"
          ∷ codes "add"
          ∷ codes "server"
          ∷ codes "via"
          ∷ codes "192.168.0.1"
          ∷ codes "dev"
          ∷ codes "eth0"
          ∷ [])
      ∷ del_default
      ∷ (codes "route"
          ∷ codes "add"
          ∷ codes "default"
          ∷ codes "via"
          ∷ codes "10.8.0.1"
          ∷ codes "dev"
          ∷ codes "tun0"
          ∷ [])
      ∷ (codes "route"
          ∷ codes "add"
          ∷ codes "10.0.0.0/8"
          ∷ codes "via"
          ∷ codes "192.168.0.1"
          ∷ codes "dev"
          ∷ codes "eth0"
          ∷ [])
      ∷ [];
  remote = codes "cat > /tmp/x2ssh-agent && chmod +x /tmp/x2ssh-agent" ∷ [];
}

-- The world behind the drop of the device.
abbrev pub stranded : World
stranded = host.drop_tun (codes "tun0") deployed

pub session_fails :
    Session.start exact nets server host self config ssh_ip broken ≡ (err (foreign 3), stranded)
unfolding create client_ip server_ip get_default_route split_whitespace first_line parse_ipv4 deploy
    open_session_channel show_ip decimal
session_fails =
    start_leaves_routes exact nets server host self config ssh_ip server_tun (codes "tun0") original
      (foreign 3) broken broken broken (shown broken) deployed spawns refl refl refl refl refl refl

-- ===== src/Examples/Session.antt =====
-- Routes, hooks and the deployment.
use x2ssh.Base.{ℕ, suc, ◌↔◌, deploy_failed, ◌≡◌, refl, [], ◌∷◌, ◌++◌, none, some, codes}
use x2ssh.Base.{ok, err}
use x2ssh.Net.{IpAddr, v4}
use x2ssh.Net.Parse.{split_whitespace, first_line, parse_ipv4}
use x2ssh.Ssh.{exit_status, eof}
use x2ssh.Retry.{from_millis}
use x2ssh.Retry.Float.{exact}
use x2ssh.Transport.{Transport}
use x2ssh.Config.{VpnConfig, server_ip}
use x2ssh.Vpn.Deploy.{deploy}
use x2ssh.Vpn.Deploy.Deployed.{Copied, deploy_lem}
use x2ssh.Vpn.IpRoute.{RouteInfo, get_default_route}
use x2ssh.Vpn.Routing.Commands.{Spawns}
use x2ssh.Examples.World.{World, calm, server, gateway, nets, host}

abbrev pub self : Transport exact server
self = record {
  session = 3;
  config = record {
    retry_policy = record {
      max_attempts = none;
      initial_delay = from_millis 1000;
      backoff = 2;
      max_delay = from_millis 30000;
    };
    health_interval = from_millis 5000;
    key_path = none;
    user = codes "root";
    host = codes "host";
    port = 22;
  };
}

abbrev pub config : VpnConfig
config = record {
  client_address = codes "10.8.0.2/24";
  server_address = codes "10.8.0.1/24";
  client_tun = codes "tun0";
  mtu = 1400;
  exclude = codes "10.0.0.0/8" ∷ [];
  post_up = [];
  pre_down = codes "down" ∷ [];
}

abbrev pub original : RouteInfo nets
original = record {
  destination = codes "0.0.0.0/0";
  gateway = some gateway;
  interface = codes "eth0";
}

abbrev pub server_tun : IpAddr
server_tun = v4 10 8 0 1

abbrev pub ssh_ip : IpAddr
ssh_ip = v4 1 2 3 4

pub spawns : Spawns host.run_ip
spawns c w = (codes "default via 192.168.0.1 dev eth0 proto dhcp", refl)

abbrev pub shown : World → World
shown w = record w {
  routes = w.routes ++ ((codes "route" ∷ codes "show" ∷ codes "default" ∷ []) ∷ []);
}

pub default_route : get_default_route nets host.run_ip calm ≡ (ok (some original), shown calm)
unfolding get_default_route split_whitespace first_line parse_ipv4
default_route = refl

pub server_addr : server_ip nets config ≡ ok server_tun
unfolding server_ip
server_addr = refl

-- The server has written the file, but reports a failure behind its end of file.
abbrev written : World
written = record calm { inbox = eof ∷ exit_status 1 ∷ [] }

abbrev copied : World
copied = record written {
  sent = 7 ∷ 8 ∷ [];
  remote = codes "cat > /tmp/x2ssh-agent && chmod +x /tmp/x2ssh-agent" ∷ [];
}

deploy_lem_example :
    (deploy exact server (7 ∷ 8 ∷ []) self written ≡ (ok tt, copied)
      ↔ Copied exact server (7 ∷ 8 ∷ []) self 0 written copied)
    × ((n : ℕ)
        → Copied exact server (7 ∷ 8 ∷ []) self (suc n) written copied
        → deploy exact server (7 ∷ 8 ∷ []) self written ≡ (err (deploy_failed (suc n)), copied))
deploy_lem_example = deploy_lem exact server (7 ∷ 8 ∷ []) self written copied

deploy_runs : deploy exact server (7 ∷ 8 ∷ []) self written ≡ (ok tt, copied)
deploy_runs =
    deploy_lem_example.0.1
      (3, written, record copied { sent = [] }, copied, refl, refl, refl, refl, refl)

-- ===== src/Examples/Tunnelled.antt =====
-- The routes of a session that forwards packets, and `main` with `--vpn`.
use x2ssh.Base.{
  str_eq, false, ◌≡◌, refl, arith, [], ◌∷◌, none, some, codes, decimal, ok, err, foreign, Str,
}
use x2ssh.Cli.{Cli, vpn_config}
use x2ssh.Config.Load.{load}
use x2ssh.Main.{Outside, Schedule, finished, main}
use x2ssh.Main.Proxying.{config_of}
use x2ssh.Main.Tunnelling.{main-vpn}
use x2ssh.Transport.{Transport, connect, open_session_channel}
use x2ssh.Vpn.Deploy
use x2ssh.Vpn.Deploy.{deploy}
use x2ssh.Vpn.Hooks.{run_post_up}
use x2ssh.Vpn.IpRoute
use x2ssh.Vpn.IpRoute.{get_default_route}
use x2ssh.Vpn.Routing
use x2ssh.Vpn.Routing.{new, setup}
use x2ssh.Vpn.Routing.Table.{entry_within, without}
use x2ssh.Vpn.Session
use x2ssh.Vpn.Session.{VpnSession}
use x2ssh.Net.Parse.{split_whitespace, first_line, parse_ipv4}
use x2ssh.Config.{server_ip}
use x2ssh.Examples.Main.{outside, empty_table, cli}
use x2ssh.Config.{client_ip}
use x2ssh.Net.{show_ip}
use x2ssh.Retry.Float.{exact}
use x2ssh.TunRs.{queue}
use x2ssh.Vpn.Forward.Tasks.{up, down, turns}
use x2ssh.Vpn.Session.Run.{forwarding, run_vpn_tasks}
use x2ssh.Vpn.Session.Cleaning.{cleans, goes_on}
use x2ssh.Vpn.Session.Run.Stranded.{run_vpn_stranded}
use x2ssh.Vpn.Session.Run.Tunnelled.{turns-entry_within}
use x2ssh.Vpn.Tun.{create}
use x2ssh.Examples.World.{World, calm, server, gateway, nets, host}
use x2ssh.Examples.Session.{
  self, config, original, server_tun, ssh_ip, spawns, shown, default_route, server_addr,
}
use x2ssh.Examples.Table.{route_table, dropped, not_there, default_entry, default_taken}
use x2ssh.Examples.Lifecycle.{running, started, session_starts, broken, stranded, session_fails}
use x2ssh.Examples.Interrupted.{unseen, two_packets}

turns-entry_within_example :
    route_table.lookup
      (turns server queue 3
        (up ∷ down ∷ up ∷ [])
        (forwarding exact nets server host queue self config running two_packets started)).world
      (codes "server")
    ≡ some (some (show_ip nets gateway), codes "eth0")
unfolding create client_ip show_ip decimal
turns-entry_within_example =
    turns-entry_within exact nets server host self config spawns route_table unseen ssh_ip
      server_tun original (codes "tun0") running calm calm calm (shown calm) started refl refl
      server_addr default_route refl session_starts queue two_packets (up ∷ down ∷ up ∷ [])
      (codes "server")

run_vpn_stranded_example :
    (run_vpn_tasks exact nets server host queue self config 0 ssh_ip [] [] two_packets broken
      ≡ (some (err (foreign 3)), stranded))
    × ((x : Str)
        → route_table.lookup stranded x
          ≡ without (codes "tun0") (
              entry_within nets route_table.takes original
                (codes "server")
                (some (show_ip nets server_tun))
                (codes "tun0")
                (codes "10.0.0.0/8" ∷ [])
                x
                (route_table.lookup broken x)))
    × (route_table.lookup stranded (codes "default") ≡ none)
unfolding create client_ip server_ip get_default_route split_whitespace first_line parse_ipv4
run_vpn_stranded_example =
    run_vpn_stranded exact nets server host self config spawns route_table unseen queue ssh_ip
      server_tun original (codes "tun0") (foreign 3) [] [] two_packets broken broken broken
      (shown broken) stranded dropped refl refl refl refl refl session_fails

abbrev vpn_outside : Outside exact World
vpn_outside = record outside { lookup_host = λ s w. (ok ((ssh_ip, 22) ∷ []), w) }

-- A call that gives the configuration of the session by its options.
abbrev vpn_cli : Cli exact
vpn_cli = record cli {
  destination = codes "root@host";
  config = none;
  vpn_client_address = some (codes "10.8.0.2/24");
  vpn_server_address = some (codes "10.8.0.1/24");
  vpn_client_tun = some (codes "tun0");
  vpn_mtu = some 1400;
  vpn_exclude = codes "10.0.0.0/8" ∷ [];
  vpn_pre_down = codes "down" ∷ [];
}

abbrev vpn_transport : Transport exact server
vpn_transport = record { session = 7; config = config_of vpn_cli (codes "root") (codes "host") }

abbrev vpn_running : VpnSession exact nets server host
vpn_running = record running {
  agent = record { reader = record { inbox = []; buffer = [] }; writer = 7 };
}

vpn_starts :
    Session.start exact nets server host vpn_transport config ssh_ip calm
    ≡ (ok vpn_running, started)
unfolding Session.start Session.start_with Session.setup_routing create client_ip setup new
    server_ip get_default_route split_whitespace first_line parse_ipv4 deploy open_session_channel
    Deploy.start run_post_up show_ip decimal Routing.save_original_default_route
    Routing.route_ssh_server_via_original_gateway Routing.set_default_route_via_tun
    Routing.add_exclusions Routing.add_exclusion_route IpRoute.delete_default_route
    IpRoute.add_default_route IpRoute.add_route_via_gateway
vpn_starts = refl

configured :
    vpn_config vpn_outside.exists
      (load exact vpn_outside.read_to_string (λ s. ok empty_table))
      vpn_cli
      calm
    ≡ (ok config, calm)
unfolding vpn_config
configured = refl

connects :
    connect exact server (config_of vpn_cli (codes "root") (codes "host")) calm
    ≡ (ok vpn_transport, calm)
unfolding connect
connects = refl

abbrev vpn_schedule : Schedule exact nets server host vpn_outside queue
vpn_schedule = record {
  rounds = 0;
  turns = up ∷ [];
  moves = cleans ∷ cleans ∷ goes_on up ∷ cleans ∷ cleans ∷ cleans ∷ cleans ∷ [];
  device = two_packets;
}

main-vpn_example :
    let (r, end) =
      main exact nets server host vpn_outside queue
        (λ s. ok empty_table)
        vpn_schedule
        vpn_cli
        calm in
    (r ≡ some (ok finished))
    × ((x : Str)
        → str_eq x (codes "server") ≡ false
        → route_table.lookup end x ≡ route_table.lookup calm x)
unfolding create client_ip
main-vpn_example =
    main-vpn exact nets server host vpn_outside queue (λ s. ok empty_table) vpn_schedule vpn_cli
      (codes "root") (codes "host") config vpn_transport ssh_ip 22 [] calm calm calm calm
      (omega arith) refl configured connects refl spawns route_table unseen server_tun gateway
      original (codes "tun0") vpn_running calm calm (shown calm) started refl refl refl refl refl
      server_addr default_route refl default_entry default_taken refl not_there vpn_starts
      (omega arith)

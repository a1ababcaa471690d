-- ===== src/Examples/Main.antt =====
-- `main`.
use x2ssh.Base.{ℕ, ◌≡◌, refl, arith, [], ◌∷◌, none, some, codes, decimal, true, ok, err, foreign}
use x2ssh.Net.{v4}
use x2ssh.Retry.Float.{exact}
use x2ssh.Transport
use x2ssh.Transport.{connect_once}
use x2ssh.Config.Load.{AppTable, app_of_table}
use x2ssh.Cli.{Cli}
use x2ssh.Main.{Outside, Schedule, proxying, main}
use x2ssh.TunRs.{queue}
use x2ssh.Vpn.Forward.Tasks.{up}
use x2ssh.Vpn.Session.Cleaning.{cleans, goes_on}
use x2ssh.Examples.Interrupted.{two_packets}
use x2ssh.Main.Sections.{main-congr}
use x2ssh.Main.Proxying.{config_of, main-port}
use x2ssh.Examples.World.{World, calm, server, nets, host}

abbrev pub outside : Outside exact World
outside = record {
  Listener = ℕ;
  Socket = ℕ;
  exists = λ path w. true;
  read_to_string = λ path w. (ok path, w);
  parse_addr = λ s. err (foreign 9);
  lookup_host = λ s w. (ok ((v4 10 0 0 9, 22) ∷ []), w);
  bind = λ a w. (ok a.port, w);
  accept = λ l w. (ok l, w);
  getuid = 0;
}

-- An empty file, and one with a port for the connection.
abbrev pub empty_table : AppTable exact
empty_table = record { vpn = none; connection = none; retry = none }

abbrev port_table : AppTable exact
port_table = record { vpn = none; connection = some (some 2222); retry = none }

abbrev pub cli : Cli exact
cli = record {
  destination = codes "alice@host";
  vpn = true;
  config = some (codes "vpn.toml");
  vpn_client_address = none;
  vpn_server_address = none;
  vpn_client_tun = none;
  vpn_mtu = none;
  vpn_exclude = [];
  vpn_post_up = [];
  vpn_pre_down = [];
  socks_addr = none;
  port = 22;
  identity = some (codes "key");
  retry_max = none;
  retry_delay = 1000;
  retry_backoff = 2;
  retry_max_delay = 30000;
  health_interval = 5000;
}

abbrev pub schedule : Schedule exact nets server host outside queue
schedule = record {
  rounds = 2;
  turns = up ∷ [];
  moves = cleans ∷ cleans ∷ goes_on up ∷ cleans ∷ cleans ∷ cleans ∷ cleans ∷ [];
  device = two_packets;
}

main-congr_example :
    main exact nets server host outside queue (λ s. ok empty_table) schedule cli calm
    ≡ main exact nets server host outside queue (λ s. ok port_table) schedule cli calm
unfolding app_of_table
main-congr_example =
    main-congr exact nets server host outside (λ s. ok empty_table) (λ s. ok port_table) queue
      schedule (λ s. refl) cli calm

main-port_example :
    main exact nets server host outside queue
      (λ s. ok empty_table)
      schedule
      (record cli { socks_addr = some (codes "1080") })
      calm
    ≡ (
      some (
          ok (
            proxying (record {
              transport = record {
                session = 7;
                config = config_of cli (codes "alice") (codes "host");
              };
              health_interval = 5_000_000_000;
              listener = 1080;
              sockets = 1080 ∷ 1080 ∷ [];
            }))),
      calm,
    )
unfolding decimal Transport.connect
main-port_example =
    main-port exact nets server host outside queue (λ s. ok empty_table) schedule
      (record cli { socks_addr = some (codes "1080") }) (codes "alice") (codes "host") 1080
      (record { session = 7; config = config_of cli (codes "alice") (codes "host") }) 1080 calm calm
      calm (omega arith) refl (omega arith) refl refl refl

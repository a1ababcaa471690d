-- ===== src/Examples/Client.antt =====
-- The retry policy, the transport, and the command line.
use x2ssh.Base.{ℕ, ◌≡◌, ◌≢◌, ◌≤◌, refl, [], ◌∷◌, arith, none, some, Str, codes}
use x2ssh.Base.{Bool, true, false, foreign, Result, ok, err, Exec, expected_user_host}
use x2ssh.Ssh.{data_msg, extended_data, exit_status, eof}
use x2ssh.Retry.{RetryPolicy, Duration, from_millis, delay_for_attempt, should_retry}
use x2ssh.Retry.Float.{exact, exact-IsFloat}
use x2ssh.Retry.Delay.{delay_for_attempt-le}
use x2ssh.Transport.{TransportConfig, Transport, connect_once, reconnect, exec}
use x2ssh.Transport.Reconnect.{reconnect-ok, reconnect-err, reconnect-ne-none}
use x2ssh.Transport.Commands.{exec-collected}
use x2ssh.Config.{AppConfig, default_vpn}
use x2ssh.Cli.{Cli, SocketAddr, parse_user_host, parse_u16, vpn_config, apply_overrides}
use x2ssh.Cli.Merge.{vpn_config-Merged, Merged, missing}
use x2ssh.Examples.World.{World, calm, server}

abbrev pub policy : RetryPolicy exact
policy = record {
  max_attempts = some 2;
  initial_delay = from_millis 1000;
  backoff = 2;
  max_delay = from_millis 30000;
}

abbrev pub config : TransportConfig exact
config = record {
  retry_policy = policy;
  health_interval = from_millis 5000;
  key_path = some (codes "key");
  user = codes "root";
  host = codes "host";
  port = 22;
}

abbrev self : Transport exact server
self = record { session = 3; config = config }

abbrev pub sleep : Duration → World → World
sleep d w = w

abbrev pub refusing : ℕ → World
refusing n = record calm { refused = n }

ports : (parse_u16 (codes "+80") ≡ some 80) × (parse_u16 (codes "65536") ≡ none)
unfolding parse_u16
ports = (refl, refl)

no_at_sign : parse_user_host (codes "host") ≡ err expected_user_host
unfolding parse_user_host
no_at_sign = refl

delay_for_attempt-le_example : delay_for_attempt exact policy 4_000_000_000 ≤ from_millis 30000
delay_for_attempt-le_example =
    delay_for_attempt-le exact exact-IsFloat policy 4_000_000_000 (omega arith)

reconnect-ok_example :
    reconnect exact server sleep 3 self (refusing 1)
    ≡ (some (ok tt), record self { session = 7 }, refusing 0)
unfolding connect_once should_retry
reconnect-ok_example =
    reconnect-ok exact server sleep self 1 3 (refusing 1) 7 (refl, (foreign 2, refl), tt) refl
      (omega arith) (omega arith)

reconnect-err_example :
    reconnect exact server sleep 3 self (refusing 5) ≡ (some (err (foreign 2)), self, refusing 2)
unfolding connect_once should_retry
reconnect-err_example =
    reconnect-err exact server sleep self 2 3 (refusing 5) (foreign 2) refl
      (refl, (foreign 2, refl), (refl, (foreign 2, refl), tt)) refl (omega arith) (omega arith)

reconnect-ne-none_example : (reconnect exact server sleep 3 self (refusing 5)).0 ≢ none
reconnect-ne-none_example =
    reconnect-ne-none exact server sleep self 2 3 (refusing 5) refl (omega arith) (omega arith)

-- Output, a warning on the standard error, and a failure.
abbrev talking : World
talking = record calm {
  inbox =
      data_msg (1 ∷ []) ∷ extended_data (8 ∷ []) 1 ∷ data_msg (2 ∷ []) ∷ eof ∷ exit_status 3 ∷ [];
}

abbrev talked : World
talked = record talking { remote = codes "ls" ∷ [] }

exec-collected_example :
    exec exact server self (codes "ls") talking
    ≡ (ok (record { exit_code = 3; stdout = 1 ∷ 2 ∷ []; stderr = 8 ∷ [] }), talked)
exec-collected_example =
    exec-collected exact server self (codes "ls") 3 talking talking talked refl refl

abbrev cli : Cli exact
cli = record {
  destination = codes "alice@server.com";
  vpn = true;
  config = some (codes "vpn.toml");
  vpn_client_address = some (codes "10.9.0.2/24");
  vpn_server_address = none;
  vpn_client_tun = none;
  vpn_mtu = some 1280;
  vpn_exclude = codes "10.0.0.0/8" ∷ [];
  vpn_post_up = [];
  vpn_pre_down = [];
  socks_addr = some (codes "1080");
  port = 22;
  identity = none;
  retry_max = none;
  retry_delay = 1000;
  retry_backoff = 2;
  retry_max_delay = 30000;
  health_interval = 5000;
}

abbrev no_address : Str → Result SocketAddr
no_address s = err (foreign 6)

abbrev absent : Str → World → Bool
absent path w = false

abbrev load_nothing : Str → Exec World (AppConfig exact)
load_nothing path w = (err (foreign 7), w)

vpn_config-Merged_example :
    (vpn_config absent load_nothing cli calm ≡ (ok (apply_overrides cli default_vpn), calm))
    × Merged cli default_vpn (apply_overrides cli default_vpn)
vpn_config-Merged_example =
    vpn_config-Merged cli absent load_nothing calm default_vpn calm
      (missing (codes "vpn.toml") refl refl refl refl)

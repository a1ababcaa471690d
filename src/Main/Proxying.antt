-- ===== src/Main/Proxying.antt =====
-- `main` as a SOCKS5 proxy.
use x2ssh.Base.{
  zero, suc, List, [], err, Exec, inl, inr, Result-cases, ℕ, ◌≤◌, ◌≡◌, refl, ap, ◌∙◌, ◌∷◌, ◌++◌,
  some, Str, decimal, Result, ok, >>=-ok,
}
use x2ssh.Net.{IpNets}
use x2ssh.Ssh.{Ssh}
use x2ssh.Retry.{from_millis}
use x2ssh.Retry.Float.{F64}
use x2ssh.Transport
use x2ssh.Transport.{Transport, TransportConfig}
use x2ssh.Config.Load.{AppTable}
use x2ssh.Cli.{Cli, localhost, transport_config, socks_socket_addr}
use x2ssh.Cli.Address.{Lacks, parse_user_host-append, socks_socket_addr-port}
use x2ssh.TunRs.{Tun}
use x2ssh.Vpn.Session.{Host}
use x2ssh.Main.{Outside, Schedule, proxying, accept_loop, start_proxy, proxies, with_mode, main}

-- The options of the command line, with the two parts of its destination.
abbrev pub config_of : {F : F64} → Cli F → Str → Str → TransportConfig F
config_of cli user host = record {
  retry_policy = record {
    max_attempts = cli.retry_max;
    initial_delay = from_millis cli.retry_delay;
    backoff = cli.retry_backoff;
    max_delay = from_millis cli.retry_max_delay;
  };
  health_interval = from_millis cli.health_interval;
  key_path = cli.identity;
  user = user;
  host = host;
  port = cli.port;
}

-- So many calls of `accept`, and what they answered.
abbrev pub accepts :
    {W Listener Socket : Type 0}
    → (Listener → Exec W Socket)
    → ℕ
    → Listener
    → W
    → List (Result Socket) × W
accepts accept zero listener w = ([], w)
accepts accept (suc rounds) listener w =
    let (answer, w') = accept listener w in
    let (answers, w'') = accepts accept rounds listener w' in (answer ∷ answers, w'')

-- The results that are no errors, in their order.
abbrev pub given_ones : {A : Type 0} → List (Result A) → List A
given_ones [] = []
given_ones (ok x ∷ rs) = x ∷ given_ones rs
given_ones (err e ∷ rs) = given_ones rs

module _ (F : F64) (N : IpNets) {W : Type 0} (S : Ssh W) (H : Host W) (O : Outside F W) (T : Tun)
    (parse_toml : Str → Result (AppTable F)) (sched : Schedule F N S H O T) where
  pub transport_config-append :
      (cli : Cli F) (user host : Str)
      → Lacks b'@' user
      → cli.destination ≡ user ++ (b'@' ∷ host)
      → transport_config cli ≡ ok (config_of cli user host)
  unfolding transport_config
  transport_config-append cli user host lacks given =
      rw (given, parse_user_host-append user host lacks) refl

  accept_loop-accepts :
      (rounds : ℕ) (listener : O.Listener) (w : W)
      → let (answers, w') = accepts O.accept rounds listener w in
        accept_loop F N S H O rounds listener w ≡ (given_ones answers, w')
  unfolding accept_loop
  accept_loop-accepts zero listener w = refl
  accept_loop-accepts (suc rounds) listener w =
      let rest = accept_loop-accepts rounds listener (O.accept listener w).1 in
      elim (Result-cases (O.accept listener w).0) [
        | inl (socket, q) ↦ rw (q, rest, accept_loop) refl
        | inr (e, q) ↦ rw (q, rest, accept_loop) refl
      ]

  start_proxy-port :
      (rounds : ℕ) (cli : Cli F) (user host : Str) (n : ℕ) (transport : Transport F S)
      (listener : O.Listener) (w w₁ w₂ : W)
      → n ≤ 65535
      → cli.socks_addr ≡ some (decimal n)
      → Lacks b'@' user
      → cli.destination ≡ user ++ (b'@' ∷ host)
      → Transport.connect F S (config_of cli user host) w ≡ (ok transport, w₁)
      → O.bind (record { ip = localhost; port = n }) w₁ ≡ (ok listener, w₂)
      → let (sockets, w₃) = accept_loop F N S H O rounds listener w₂ in
        start_proxy F N S H O rounds cli w ≡ (
          ok (record {
            transport = transport;
            health_interval = from_millis cli.health_interval;
            listener = listener;
            sockets = sockets;
          }),
          w₃,
        )
  unfolding start_proxy
  start_proxy-port rounds cli user host n transport listener w w₁ w₂ small port lacks given
        connected bound =
      >>=-ok (λ x. (socks_socket_addr O.parse_addr cli, x)) _ w
        (ap (λ r. (r, w)) (socks_socket_addr-port O.parse_addr cli n small port))
      ∙ >>=-ok (λ x. (transport_config cli, x)) _ w
          (ap (λ r. (r, w)) (transport_config-append cli user host lacks given))
      ∙ >>=-ok (Transport.connect F S (config_of cli user host)) _ w connected
      ∙ >>=-ok (O.bind (record { ip = localhost; port = n })) _ w₁ bound

  -- `x2ssh -D PORT USER@HOST`, with `--vpn` or without: if the connection as USER to HOST with the
  -- options of the command line is made, and 127.0.0.1 has PORT free, `main` listens on PORT of
  -- 127.0.0.1 alone, with that session and the interval of its monitor, and after any number of
  -- rounds it has spawned a task for each socket that `accept` gave in them, in their order.
  pub main-port :
      (cli : Cli F) (user host : Str) (n : ℕ) (transport : Transport F S) (listener : O.Listener)
      (w w₁ w₂ : W)
      → n ≤ 65535
      → cli.socks_addr ≡ some (decimal n)
      → Lacks b'@' user
      → cli.destination ≡ user ++ (b'@' ∷ host)
      → Transport.connect F S (config_of cli user host) w ≡ (ok transport, w₁)
      → O.bind (record { ip = localhost; port = n }) w₁ ≡ (ok listener, w₂)
      → let (answers, w₃) = accepts O.accept sched.rounds listener w₂ in
        main F N S H O T parse_toml sched cli w ≡ (
          some (
              ok (
                proxying (record {
                  transport = transport;
                  health_interval = from_millis cli.health_interval;
                  listener = listener;
                  sockets = given_ones answers;
                }))),
          w₃,
        )
  unfolding main with_mode
  main-port cli user host n transport listener w w₁ w₂ small port lacks given connected bound =
      ap (λ socks. with_mode F N S H O T parse_toml sched cli socks cli.vpn w) port
      ∙ ap (λ r. (some (proxies F N S H O T parse_toml sched r.0), r.1))
          (start_proxy-port sched.rounds cli user host n transport listener w w₁ w₂ small port lacks
              given connected bound
            ∙ ap
                (λ a. (
                  ok (record {
                    transport = transport;
                    health_interval = from_millis cli.health_interval;
                    listener = listener;
                    sockets = a.0;
                  }),
                  a.1,
                ))
                (accept_loop-accepts sched.rounds listener w₂))

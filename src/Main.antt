-- ===== src/Main.antt =====
-- x2ssh/src/main.rs: `main` behind the parsing of the command line, and `resolve_host`.
pub mod Sections
pub mod Proxying
pub mod Tunnelling
use x2ssh.Base.{
  ℕ, zero, suc, List, [], ◌∷◌, ◌++◌, Bool, true, false, Option, none, some, Str, codes,
}
use x2ssh.Base.{Result, ok, err, Exec, pure, lift, ◌>>=◌, ◌>>◌, no_mode, unresolved_host}
use x2ssh.Net.{IpAddr, IpNets}
use x2ssh.Ssh.{Ssh}
use x2ssh.Retry.{Duration}
use x2ssh.Retry.Float.{F64}
use x2ssh.Transport
use x2ssh.Transport.{Transport}
use x2ssh.Config.Load.{AppTable, load}
use x2ssh.Cli.{Cli, SocketAddr, socks_socket_addr, transport_config, vpn_config}
use x2ssh.TunRs.{Tun}
use x2ssh.Config.{VpnConfig}
use x2ssh.Vpn.Forward.Tasks.{Turn}
use x2ssh.Vpn.Session.{Host}
use x2ssh.Vpn.Session.Cleaning.{Move}
use x2ssh.Vpn.Session.Run.{run_vpn_tasks}

first_ip : Str → List (IpAddr × ℕ) → Result IpAddr
first_ip host [] = err (unresolved_host host)
first_ip host (addr ∷ addrs) = ok addr.0

module _ {W : Type 0} where
  unfoldable pub resolve_host : (Str → Exec W (List (IpAddr × ℕ))) → Str → Exec W IpAddr
  unfolding first_ip
  resolve_host lookup_host host = do
    let addr = host ++ codes ":22"
    addrs ← lookup_host addr
    lift (first_ip host addrs)

-- What `main` uses of the outside besides.
pub record Outside (F : F64) (W : Type 0) : Type 1 where
  pub Listener : Type 0
  pub Socket : Type 0
  pub exists : Str → W → Bool
  pub read_to_string : Str → Exec W Str
  pub parse_addr : Str → Result SocketAddr
  pub lookup_host : Str → Exec W (List (IpAddr × ℕ))
  pub bind : SocketAddr → Exec W Listener
  pub accept : Listener → Exec W Socket
  pub getuid : ℕ

module _ (F : F64) (N : IpNets) {W : Type 0} (S : Ssh W) (H : Host W) (O : Outside F W) where
  -- The SOCKS5 proxy: the monitor was spawned, and a task for each of the sockets.
  pub record Proxy : Type 0 where
    pub transport : Transport F S
    pub health_interval : Duration
    pub listener : O.Listener
    pub sockets : List O.Socket

  -- How `main` ends, or how far its proxy is.
  pub data Started : Type 0 where
    proxying : Proxy → Started
    finished : Started

  -- The sockets for which a task was spawned, after so many rounds; a failed `accept` is logged.
  unfoldable pub accept_loop : ℕ → O.Listener → W → List O.Socket × W
  accept_loop zero listener w = ([], w)
  accept_loop (suc rounds) listener w =
      let (accepted, w') = O.accept listener w in
      let (sockets, w'') = accept_loop rounds listener w' in
      elim accepted [ ok socket ↦ (socket ∷ sockets, w'') | err e ↦ (sockets, w'') ]

  -- The loop does not end: it is taken after so many rounds. What the monitor and the tasks of the
  -- sockets do to the world meanwhile comes into it by `accept`.
  unfoldable pub start_proxy : ℕ → Cli F → Exec W Proxy
  start_proxy rounds cli = do
    socks_addr ← lift (socks_socket_addr O.parse_addr cli)
    config ← lift (transport_config cli)
    transport ← Transport.connect F S config
    listener ← O.bind socks_addr
    λ w.
        let (sockets, w') = accept_loop rounds listener w in
        (
          ok (record {
            transport = transport;
            health_interval = config.health_interval;
            listener = listener;
            sockets = sockets;
          }),
          w',
        )

  module _ (T : Tun) where
    -- What is not for the program to say: the rounds of the accept loop, and with `--vpn` the turns
    -- of the tasks, the moves behind Ctrl+C, and the state of the TUN device.
    pub record Schedule : Type 0 where
      pub rounds : ℕ
      pub turns : List Turn
      pub moves : List Move
      pub device : T.State

    -- `parse_toml` is `toml::from_str`, up to the defaults for the missing keys.
    module _ (parse_toml : Str → Result (AppTable F)) (sched : Schedule) where
      -- What a tunnel is made of: its configuration, its connection, and the server's address.
      unfoldable pub vpn_target : Cli F → Exec W (VpnConfig × Transport F S × IpAddr)
      unfolding resolve_host
      vpn_target cli = do
        config ← vpn_config O.exists (load F O.read_to_string parse_toml) cli
        transport_config ← lift (transport_config cli)
        transport ← Transport.connect F S transport_config
        ssh_server_ip ← resolve_host O.lookup_host transport_config.host
        pure (config, transport, ssh_server_ip)

      run_target : Result (VpnConfig × Transport F S × IpAddr) → W → Option (Result (Unit {0})) × W
      run_target (err e) w = (some (err e), w)
      run_target (ok (config, transport, ssh_server_ip)) w =
          run_vpn_tasks F N S H T transport config O.getuid ssh_server_ip sched.turns sched.moves
            sched.device w

      -- `none` while the tunnel is taken down.
      unfoldable pub start_vpn : Cli F → W → Option (Result (Unit {0})) × W
      unfolding run_target
      start_vpn cli w = let (target, w') = vpn_target cli w in run_target target w'

      abbrev pub finishes : Option (Result (Unit {0})) → Option (Result Started)
      finishes none = none
      finishes (some (ok _)) = some (ok finished)
      finishes (some (err e)) = some (err e)

      abbrev pub proxies : Result Proxy → Result Started
      proxies (ok proxy) = ok (proxying proxy)
      proxies (err e) = err e

      with_mode : Cli F → Option Str → Bool → W → Option (Result Started) × W
      unfolding start_proxy start_vpn
      with_mode cli none false w = (some (err no_mode), w)
      with_mode cli none true w = let (r, w') = start_vpn cli w in (finishes r, w')
      with_mode cli (some a) vpn w =
          let (r, w') = start_proxy sched.rounds cli w in (some (proxies r), w')

      unfoldable pub main : Cli F → W → Option (Result Started) × W
      unfolding with_mode
      main cli w = with_mode cli cli.socks_addr cli.vpn w

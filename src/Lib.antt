-- ===== src/Lib.antt =====
-- x2ssh: a SOCKS5 proxy and a VPN tunnel over SSH. This library models the Rust code of the client
-- (x2ssh/src), of the agent that it deploys to the server (x2ssh-agent/src) and of the framing that
-- both share (proto/src), and proves what makes its parts correct.
--
-- The parts and how they interact. Main.antt (x2ssh/src/main.rs) is main behind the command line,
-- which Cli.antt (main.rs) and the configuration file of Config.antt (x2ssh/src/config.rs) make
-- into a TransportConfig and a VpnConfig. Transport.antt (x2ssh/src/transport.rs) connects with
-- the policy of Retry.antt (x2ssh/src/retry.rs), runs commands and, in Transport/Relay.antt,
-- forwards a connection; Transport/Sharing.antt is its session mutex. Monitor.antt (main.rs) is
-- the health monitor, and Socks (x2ssh/src/socks.rs: Socks/Serve.antt, and Socks/Connect.antt for
-- its select) serves a SOCKS5 client. A VPN run (Vpn/Session.antt, x2ssh/src/vpn.rs and
-- x2ssh/src/vpn/session.rs) creates the TUN device (Vpn/Tun.antt, tun.rs), moves the routes
-- (Vpn/IpRoute.antt and Vpn/Routing.antt, routing.rs), deploys and starts the agent
-- (Vpn/Deploy.antt, agent.rs), runs the hooks (Vpn/Hooks.antt, hooks.rs) and forwards packets
-- (Vpn/Forward.antt, the tasks of forward; Vpn/Forward/Tasks.antt, forward itself) over the
-- channel of Vpn/Agent.antt (agent.rs) to the agent's tasks (AgentMain.antt, their interleaving in
-- AgentMain/Tasks.antt, its start in AgentMain/Start.antt; all are x2ssh-agent/src/main.rs), which
-- speak the framing of Proto.antt (proto/src/framing.rs). Vpn/Session/Drop.antt is the Drop of a
-- session, Vpn/Session/Cleaning.antt a cleanup beside the tasks that Ctrl+C has detached, and
-- Vpn/Session/Run.antt the whole run with its select, which main runs. Vpn/Keeps.antt has the
-- rules for what a run leaves alone, and Vpn/Routing/Table.antt reads the `ip` commands on a
-- routing table. Tunnel.antt joins both ends. Build.antt is the build script x2ssh/build.rs, which
-- makes the agent's binary. UnitTests.antt has the source's own unit tests, as functions into Bool
-- on the model.
--
-- How the code is read. A byte is a number below 256 and a text a list of code points. An async
-- function is an action on the state of the outside world that returns a result and the new world;
-- an error keeps the world that it left. Ssh.antt (russh), TunRs.antt (tun_rs), Net.antt (ipnet),
-- Retry/Float.antt (f64), the streams of Proto/Stream.antt (tokio), Socks/Protocol.antt
-- (fast_socks5), the ReadHalf of Transport/Relay.antt (tokio) and the records Host of
-- Vpn/Session.antt, Runtime of Vpn/Session/Drop.antt, RouteTable of Vpn/Routing/Table.antt (`ip`),
-- Outside of Main.antt and BuildHost of Build.antt (std and cargo) are parameters; their laws are
-- the documented behaviour, and Examples/World.antt and Examples/Build.antt instantiate them. A
-- RouteTable has one route for each destination, 0.0.0.0/0 being the default route; where a
-- destination has none, `ip route add` adds one if the host takes it, and a host takes or refuses
-- a route as its addresses are. Of `powi`, whose precision is not documented, no law is assumed. A
-- usize has 64 bits. What a channel delivers is the list of its messages.
--
-- Loops. The loops of recv_packet, exec and deploy recur on the messages of the channel. The
-- forwarding tasks and reconnect are endless in the source: they run on fuel, or for a number of
-- rounds, and a none stands for a loop that still runs. For n packets n + 1 rounds are enough, and
-- for a policy with at most m retries m + 1. The two tasks of Transport::forward run as a list of
-- events, whose order is any; for n messages n + 1 turns of the loop over them are enough. A
-- cleanup ends after as many of its own turns as calls_left counts.
--
-- Tasks. Where tasks share state (Transport::forward, VpnSession::forward, serve, the agent's
-- main, the session mutex), the model is a function over a list of turns, one for each part of a
-- task between two waits, and a theorem holds for every list. An operation that does not copy is
-- one turn. The mutexes of the agent's channel are not modelled: each half has one user while the
-- tunnel runs.
--
-- Not modelled: log lines, Windows, where the code stops with todo!, the integration tests, and the
-- unit tests that only look at what clap has read, at the size of the agent's binary, or at a real
-- connection; and the drop of the TUN device behind a cleanup, when its session and the last of the
-- tasks are gone. Of a forwarding that ends and a Ctrl+C that arrives at the same instant, the model
-- takes the first.
pub mod Base
pub mod Proto
pub mod Net
pub mod Ssh
pub mod TunRs
pub mod AgentMain
pub mod Retry
pub mod Transport
pub mod Monitor
pub mod Config
pub mod Cli
pub mod Vpn
pub mod Tunnel
pub mod Socks
pub mod Main
pub mod Build
mod Examples
mod UnitTests

-- ===== src/Socks/Serve.antt =====
-- x2ssh/src/socks.rs: `serve`.
use x2ssh.Base.{ℕ, List, [], ◌∷◌, Option, some, codes, Result, ok, err}
use x2ssh.Base.{socks_io, no_socket_addrs, unsupported_command, Exec, pure, ◌>>=◌}
use x2ssh.Net.{IpAddr, IpNets}
use x2ssh.Proto.Stream.{AsyncWrite}
use x2ssh.Ssh.{Ssh}
use x2ssh.Retry.Float.{F64}
use x2ssh.Transport.{Transport}
use x2ssh.Transport.Relay.{ReadHalf}
use x2ssh.Socks.Protocol.{Socks5, Socks5Command, tcp_connect, tcp_bind, udp_associate}
use x2ssh.Socks.Connect.{ConnectTurn, start, connect}

abbrev pub duplex_size : ℕ
duplex_size = 4096

-- `.err_when(…).and_then(|mut addrs| addrs.next().ok_or(…))`
unfoldable pub first_addr : Result (List (IpAddr × ℕ)) → Result (IpAddr × ℕ)
first_addr (err e) = err (socks_io (codes "converting to socket addr") e)
first_addr (ok []) = err no_socket_addrs
first_addr (ok (addr ∷ addrs)) = ok addr

module _ {W : Type 0} (P : Socks5 W) where
  -- What goes wrong with the reply is only logged.
  unfoldable pub try_notify : {A : Type 0} → P.CommandRead → Result A → Exec W (A × P.CommandRead)
  try_notify proto (ok x) w = (ok (x, proto), w)
  try_notify proto (err e) w = (err e, (P.reply_error proto (P.to_reply_error e) w).1)

  -- The client's command, and the address that it names.
  unfoldable pub accept : P.Socket → Exec W (Socks5Command × (IpAddr × ℕ) × P.CommandRead)
  unfolding try_notify first_addr
  accept socket = do
    authenticated ← P.accept_no_auth socket
    command ← P.read_command authenticated
    resolved ← P.resolve_dns command
    found ← λ w. let (addrs, w') = P.to_socket_addrs resolved.2 w in (ok (first_addr addrs), w')
    notified ← try_notify resolved.0 found
    pure (resolved.1, notified.0, notified.1)

  module _ (F : F64) (N : IpNets) (S : Ssh W) (C : ReadHalf) (T : AsyncWrite) where
    -- `duplex` makes the pipe whose ends the two futures have. `none` while they run.
    unfoldable pub dispatch :
        Transport F S
        → (ℕ → C.State × T.State)
        → List ConnectTurn
        → Socks5Command × (IpAddr × ℕ) × P.CommandRead
        → W
        → Option (Result (Unit {0})) × W
    unfolding connect
    dispatch session duplex ts (tcp_connect, addr, proto) w =
        let (rx, tx) = duplex duplex_size in
        let k = connect F N S P C T session addr rx tx proto ts (start F N S P C T w) in
        (k.result, k.world)
    dispatch session duplex ts (udp_associate, addr, proto) w = (some (ok tt), w)
    dispatch session duplex ts (tcp_bind, addr, proto) w = (some (err unsupported_command), w)

    abbrev pub answered :
        Transport F S
        → (ℕ → C.State × T.State)
        → List ConnectTurn
        → Result (Socks5Command × (IpAddr × ℕ) × P.CommandRead)
        → W
        → Option (Result (Unit {0})) × W
    answered session duplex ts (err e) w = (some (err e), w)
    answered session duplex ts (ok command) w = dispatch session duplex ts command w

    unfoldable pub serve :
        Transport F S
        → (ℕ → C.State × T.State)
        → P.Socket
        → List ConnectTurn
        → W
        → Option (Result (Unit {0})) × W
    unfolding accept dispatch
    serve session duplex socket ts w =
        let (accepted, w') = accept socket w in answered session duplex ts accepted w'

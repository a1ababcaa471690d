-- ===== src/Examples/Proxy.antt =====
-- One SOCKS5 connection.
use x2ssh.Base.{ℕ, suc, ◌≡◌, refl, List, [], ◌∷◌, some, Bool, true, false, ok, err}
use x2ssh.Base.{foreign, Error}
use x2ssh.Net.{IpAddr, v4}
use x2ssh.Retry.Float.{exact}
use x2ssh.Ssh.{Ssh}
use x2ssh.Proto.Stream.{vector}
use x2ssh.Transport.{Transport}
use x2ssh.Transport.Relay.{from_client, from_channel, open_channel}
use x2ssh.Socks.Protocol.{Socks5, tcp_connect}
use x2ssh.Socks.Connect.{ConnectTurn, forward_turn, proxy_turn, returned, proxied, start, connect}
use x2ssh.Socks.Connect.Ends.{connect-ok}
use x2ssh.Socks.Connect.Replies.{CountsErrors}
use x2ssh.Socks.Serve.{serve, accept}
use x2ssh.Socks.Answers.{serve-errors, serve_replied_early}
use x2ssh.Examples.World.{World, calm, server, nets, sent_or_broken}
use x2ssh.Examples.Forwarding.{chunks, self, busy}

-- The socket is the number of addresses that its target name has.
abbrev addresses : ℕ → List (IpAddr × ℕ)
addresses ℕ.zero = []
addresses (suc n) = (v4 10 0 0 5, 80) ∷ addresses n

abbrev protocol : Socks5 World
protocol = record {
  Socket = ℕ;
  Authenticated = ℕ;
  CommandRead = ℕ;
  Replied = Unit {0};
  TargetAddr = ℕ;
  ReplyError = Error;
  accept_no_auth = λ s w. (ok s, w);
  read_command = λ s w. (ok (s, tcp_connect, s), w);
  resolve_dns = λ c w. (ok c, w);
  to_socket_addrs = λ n w. (ok (addresses n), w);
  to_reply_error = λ e. e;
  reply_error = λ p e w. (ok tt, record w { error_replies = suc w.error_replies });
  reply_success = λ p a w. (ok tt, w);
  transfer = λ i w. (true, w);
}

-- A server that refuses every forwarded connection.
abbrev closed : Ssh World
closed = record server {
  channel_open_direct_tcpip = λ h ip port from_ip from_port w. (err (foreign 6), w);
}

sent_errors :
    (b : Bool) (bs : List ℕ) (w : World) → (sent_or_broken b bs w).1.error_replies ≡ w.error_replies
sent_errors true bs w = refl
sent_errors false bs w = refl

abbrev server-CountsErrors : CountsErrors server protocol
server-CountsErrors = record {
  errors = λ w. w.error_replies;
  errors-reply_error = λ p e w. refl;
  errors-reply_success = λ p a w. refl;
  errors-transfer = λ i w. refl;
  errors-open = λ h to port from from_port w. refl;
  errors-send = λ c bs w. sent_errors w.broken bs w;
  errors-close = λ c w. refl;
}

abbrev duplex : ℕ → List ℕ × List ℕ
duplex n = ([], [])

abbrev refused_self : Transport exact closed
refused_self = record { session = 3; config = self.config }

serve-errors_example :
    (serve protocol exact nets server chunks vector self duplex 1
      (proxy_turn ∷ [])
      calm).1.error_replies
    ≡ 0
unfolding accept
serve-errors_example =
    serve-errors exact nets server protocol chunks vector self duplex 1 server-CountsErrors
      (proxy_turn ∷ []) calm calm (tcp_connect, (v4 10 0 0 5, 80), 1) refl

serve_replied_early_example :
    serve protocol exact nets closed chunks vector refused_self duplex 1
      (proxy_turn ∷ forward_turn from_client ∷ [])
      calm
    ≡ (some (err (foreign 6)), calm)
unfolding accept open_channel
serve_replied_early_example =
    serve_replied_early exact nets closed protocol chunks vector refused_self duplex 1 from_client
      [] calm calm calm calm (v4 10 0 0 5, 80) 1 tt (foreign 6) refl refl refl

abbrev all_turns : List ConnectTurn
all_turns =
    proxy_turn
    ∷ forward_turn from_client
    ∷ forward_turn from_channel
    ∷ proxy_turn
    ∷ forward_turn from_channel
    ∷ forward_turn from_channel
    ∷ forward_turn from_channel
    ∷ []

connect-ok_example :
    let k =
      connect exact nets server protocol chunks vector self
        (v4 10 0 0 5, 80)
        []
        []
        1
        all_turns
        (start exact nets server protocol chunks vector busy) in
    (k.forward_task ≡ returned) × (k.proxy_task ≡ proxied)
unfolding connect
connect-ok_example =
    connect-ok exact nets server protocol chunks vector self (v4 10 0 0 5, 80) [] [] 1 all_turns
      busy refl

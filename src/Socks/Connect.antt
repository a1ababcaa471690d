-- ===== src/Socks/Connect.antt =====
-- x2ssh/src/socks.rs: a connection for `TCPConnect`, whose two futures run under `select!`. A turn is
-- a part of one of them between two waits; the order of the turns is any.
pub mod Ends
pub mod Replies
use x2ssh.Base.{ℕ, List, [], ◌∷◌, Bool, true, false, Option, none, some, if◌then◌else◌}
use x2ssh.Base.{Error, Result, ok, err, Exec, run_turns}
use x2ssh.Net.{IpAddr, v4, IpNets}
use x2ssh.Proto.Stream.{AsyncWrite}
use x2ssh.Ssh.{Ssh}
use x2ssh.Retry.Float.{F64}
use x2ssh.Transport.{Transport}
use x2ssh.Transport.Relay.{ReadHalf, Event, Relay, step, open_channel, opened_relay}
use x2ssh.Socks.Protocol.{Socks5}

-- A turn of `session.forward`, with the event that it sees once it copies, or of `run_tcp_proxy`.
pub data ConnectTurn : Type 0 where
  forward_turn : Event → ConnectTurn
  proxy_turn : ConnectTurn

module _ (F : F64) (N : IpNets) {W : Type 0} (S : Ssh W) (P : Socks5 W) (C : ReadHalf)
    (T : AsyncWrite) where
  -- How far `session.forward` is, and `run_tcp_proxy`; `returned` and `proxied` are `Ok`.
  pub data ForwardTask : Type 0 where
    opening : ForwardTask
    copying : S.Channel → Relay S C T → ForwardTask
    returned : ForwardTask

  pub data ProxyTask : Type 0 where
    replying : ProxyTask
    transferring : P.Replied → ProxyTask
    proxied : ProxyTask

  -- `result` is that of the `select!`, once it has one.
  pub record Connecting : Type 0 where
    pub forward_task : ForwardTask
    pub proxy_task : ProxyTask
    pub result : Option (Result (Unit {0}))
    pub world : W

  abbrev pub start : W → Connecting
  start w = record { forward_task = opening; proxy_task = replying; result = none; world = w }

  -- An address resolves to itself.
  abbrev pub lookup_addr : IpAddr × ℕ → Exec W (List (IpAddr × ℕ))
  lookup_addr addr w = (ok (addr ∷ []), w)

  -- A branch that has ended with `Ok` is disabled, and the `else` branch waits for both.
  abbrev pub ended : ForwardTask → ProxyTask → Option (Result (Unit {0}))
  ended returned proxied = some (ok tt)
  ended _ _ = none

  after_open : Connecting → C.State → T.State → Result S.Channel → W → Connecting
  unfolding opened_relay
  after_open k rx tx (err e) w = record k { result = some (err e); world = w }
  after_open k rx tx (ok channel) w = record k {
    forward_task = copying channel (opened_relay S C T channel rx tx w);
    world = w;
  }

  after_event : Connecting → S.Channel → Relay S C T → Connecting
  after_event k channel r =
      let task = if r.forwarding then copying channel r else returned in
      record k { forward_task = task; result = ended task k.proxy_task; world = r.world }

  forward_once :
      Transport F S → IpAddr × ℕ → C.State → T.State → Event → ForwardTask → Connecting → Connecting
  unfolding after_open after_event open_channel step
  forward_once session addr rx tx e opening k =
      let (channel, w) = open_channel S C T F N session (lookup_addr addr) k.world in
      after_open k rx tx channel w
  forward_once session addr rx tx e (copying channel r) k =
      after_event k channel (step S C T channel e (record r { world = k.world }))
  forward_once session addr rx tx e returned k = k

  after_reply : Connecting → Result P.Replied → W → Connecting
  after_reply k (err e) w = record k { result = some (err e); world = w }
  after_reply k (ok inner) w = record k { proxy_task = transferring inner; world = w }

  after_transfer : Connecting → P.Replied → Bool → W → Connecting
  after_transfer k inner false w = record k { world = w }
  after_transfer k inner true w = record k {
    proxy_task = proxied;
    result = ended k.forward_task proxied;
    world = w;
  }

  -- `run_tcp_proxy`
  proxy_once : P.CommandRead → ProxyTask → Connecting → Connecting
  unfolding after_reply after_transfer
  proxy_once proto replying k =
      let (replied, w) = P.reply_success proto (v4 127 0 0 1, 0) k.world in after_reply k replied w
  proxy_once proto (transferring inner) k =
      let (last, w) = P.transfer inner k.world in after_transfer k inner last w
  proxy_once proto proxied k = k

  module _ (session : Transport F S) (addr : IpAddr × ℕ) (rx : C.State) (tx : T.State)
      (proto : P.CommandRead) where
    unfoldable pub connect_turn : ConnectTurn → Connecting → Connecting
    unfolding forward_once proxy_once
    connect_turn (forward_turn e) k = forward_once session addr rx tx e k.forward_task k
    connect_turn proxy_turn k = proxy_once proto k.proxy_task k

    -- The first error ends the `select!`, and drops the other future.
    unfoldable pub connect : List ConnectTurn → Connecting → Connecting
    unfolding connect_turn run_turns
    connect = run_turns (λ k. k.result) connect_turn

-- ===== src/Socks/Connect/Replies.antt =====
-- What the client of a SOCKS5 connection is told.
use x2ssh.Base.{ℕ, suc, ◌≡◌, refl, ap, ◌∙◌, List, ◌∷◌}
use x2ssh.Base.{
  none, some, Error, ok, err, Bool-cases, Result-cases, inl, inr, run_turns-holds, run_turns_done,
  codes, ◌>>=◌,
}
use x2ssh.Net.{IpAddr, v4, IpNets, show_ip}
use x2ssh.Proto.Stream.{AsyncWrite}
use x2ssh.Ssh.{Ssh}
use x2ssh.Retry.Float.{F64}
use x2ssh.Transport.{Transport}
use x2ssh.Transport.Relay.{ReadHalf, Event, open_channel}
use x2ssh.Transport.Relay.Worlds.{quantity-step}
use x2ssh.Socks.Protocol.{Socks5}
use x2ssh.Socks.Connect.{
  ConnectTurn, forward_turn, proxy_turn, Connecting, ForwardTask, opening, copying, returned,
  ProxyTask, replying, transferring, proxied, lookup_addr, connect_turn, connect, start,
  forward_once, proxy_once, after_open, after_event, after_reply, after_transfer,
}

-- The number of error replies that clients were sent: `reply_error` sends one, and nothing else does.
pub record CountsErrors {W : Type 0} (S : Ssh W) (P : Socks5 W) : Type 0 where
  pub errors : W → ℕ
  pub errors-reply_error :
      (p : P.CommandRead) (e : P.ReplyError) (w : W)
      → errors (P.reply_error p e w).1 ≡ suc (errors w)
  pub errors-reply_success :
      (p : P.CommandRead) (a : IpAddr × ℕ) (w : W) → errors (P.reply_success p a w).1 ≡ errors w
  pub errors-transfer : (i : P.Replied) (w : W) → errors (P.transfer i w).1 ≡ errors w
  pub errors-open :
      (h : S.Handle) (to : List ℕ) (port : ℕ) (from : List ℕ) (from_port : ℕ) (w : W)
      → errors (S.channel_open_direct_tcpip h to port from from_port w).1 ≡ errors w
  pub errors-send : (c : S.Channel) (bs : List ℕ) (w : W) → errors (S.send_data c bs w).1 ≡ errors w
  pub errors-close : (c : S.Channel) (w : W) → errors (S.close c w).1 ≡ errors w

module _ (F : F64) (N : IpNets) {W : Type 0} (S : Ssh W) (P : Socks5 W) (L : CountsErrors S P)
    (C : ReadHalf) (T : AsyncWrite) (session : Transport F S) (addr : IpAddr × ℕ) (rx : C.State)
    (tx : T.State) (proto : P.CommandRead) where
  open_lem :
      (w : W)
      → L.errors (open_channel S C T F N session (lookup_addr F N S P C T addr) w).1 ≡ L.errors w
  unfolding open_channel
  open_lem w =
      let dial =
        S.channel_open_direct_tcpip session.session (show_ip N addr.0) addr.1 (codes "127.0.0.1")
          0 in
      let kept = L.errors-open session.session (show_ip N addr.0) addr.1 (codes "127.0.0.1") 0 w in
      elim (Result-cases (dial w).0) [
        | inl (channel, q) ↦ rw (q, ◌>>=◌) kept
        | inr (e, q) ↦ rw (q, ◌>>=◌) kept
      ]

  forward_once-errors :
      (e : Event) (f : ForwardTask F N S P C T) (k : Connecting F N S P C T)
      → L.errors (forward_once F N S P C T session addr rx tx e f k).world ≡ L.errors k.world
  unfolding forward_once after_open after_event
  forward_once-errors e opening k =
      elim (Result-cases
        (open_channel S C T F N session (lookup_addr F N S P C T addr) k.world).0) [
          | inl (channel, q) ↦ rw (q, after_open) (open_lem k.world)
          | inr (e', q) ↦ rw (q, after_open) (open_lem k.world)
        ]
  forward_once-errors e (copying c r) k =
      quantity-step S C T L.errors L.errors-send L.errors-close c e (record r { world = k.world })
  forward_once-errors e returned k = refl

  proxy_once-errors :
      (p : ProxyTask F N S P C T) (k : Connecting F N S P C T)
      → L.errors (proxy_once F N S P C T proto p k).world ≡ L.errors k.world
  unfolding proxy_once after_reply after_transfer
  proxy_once-errors replying k =
      elim (Result-cases (P.reply_success proto (v4 127 0 0 1, 0) k.world).0) [
        | inl (inner, q) ↦ rw (q, after_reply) (L.errors-reply_success proto _ k.world)
        | inr (e, q) ↦ rw (q, after_reply) (L.errors-reply_success proto _ k.world)
      ]
  proxy_once-errors (transferring inner) k = elim (Bool-cases (P.transfer inner k.world).0) [
    | inl last ↦ rw (last, after_transfer) (L.errors-transfer inner k.world)
    | inr more ↦ rw (more, after_transfer) (L.errors-transfer inner k.world)
  ]
  proxy_once-errors proxied k = refl

  connect_turn-errors :
      (t : ConnectTurn) (k : Connecting F N S P C T)
      → L.errors (connect_turn F N S P C T session addr rx tx proto t k).world ≡ L.errors k.world
  unfolding connect_turn
  connect_turn-errors (forward_turn e) k = forward_once-errors e k.forward_task k
  connect_turn-errors proxy_turn k = proxy_once-errors k.proxy_task k

  pub connect-errors :
      (ts : List ConnectTurn) (k : Connecting F N S P C T)
      → L.errors (connect F N S P C T session addr rx tx proto ts k).world ≡ L.errors k.world
  unfolding connect
  connect-errors ts k =
      run_turns-holds (λ x. x.result) (connect_turn F N S P C T session addr rx tx proto)
        (λ k'. L.errors k'.world ≡ L.errors k.world) (λ t k' _ h. connect_turn-errors t k' ∙ h) ts k
        refl

module _ (F : F64) (N : IpNets) {W : Type 0} (S : Ssh W) (P : Socks5 W) (C : ReadHalf)
    (T : AsyncWrite) (session : Transport F S) (addr : IpAddr × ℕ) (rx : C.State) (tx : T.State)
    (proto : P.CommandRead) where
  pub connect_replied_early :
      (e : Event) (ts : List ConnectTurn) (w w₁ w₂ : W) (inner : P.Replied) (error : Error)
      → P.reply_success proto (v4 127 0 0 1, 0) w ≡ (ok inner, w₁)
      → open_channel S C T F N session (lookup_addr F N S P C T addr) w₁ ≡ (err error, w₂)
      → connect F N S P C T session addr rx tx proto
          (proxy_turn ∷ forward_turn e ∷ ts)
          (start F N S P C T w)
        ≡ record {
          forward_task = opening;
          proxy_task = transferring inner;
          result = some (err error);
          world = w₂;
        }
  unfolding connect connect_turn forward_once proxy_once after_open after_reply
  connect_replied_early e ts w w₁ w₂ inner error replied refused =
      let failed : Connecting F N S P C T = record {
        forward_task = opening;
        proxy_task = transferring inner;
        result = some (err error);
        world = w₂;
      } in
      let replying_done : Connecting F N S P C T = record {
        forward_task = opening;
        proxy_task = transferring inner;
        result = none;
        world = w₁;
      } in
      ap
        (λ x.
          connect F N S P C T session addr rx tx proto (forward_turn e ∷ ts)
            (after_reply F N S P C T (start F N S P C T w) x.0 x.1))
        replied
      ∙ ap
          (λ x.
            connect F N S P C T session addr rx tx proto ts
              (after_open F N S P C T replying_done rx tx x.0 x.1))
          refused
      ∙ run_turns_done (λ x. x.result) (connect_turn F N S P C T session addr rx tx proto) ts failed
          (err error) refl

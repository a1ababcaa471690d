-- ===== src/Socks/Connect/Ends.antt =====
-- How the `select!` over a SOCKS5 connection ends.
use x2ssh.Base.{ℕ, ◌≡◌, refl, sym, ◌∙◌, List}
use x2ssh.Base.{none, some, ok, Bool-cases, Result-cases, inl, inr, run_turns-holds}
use x2ssh.Net.{IpAddr, v4, IpNets}
use x2ssh.Proto.Stream.{AsyncWrite}
use x2ssh.Ssh.{Ssh}
use x2ssh.Retry.Float.{F64}
use x2ssh.Transport.{Transport}
use x2ssh.Transport.Relay.{ReadHalf, Event, open_channel}
use x2ssh.Socks.Protocol.{Socks5}
use x2ssh.Socks.Connect.{
  ConnectTurn, forward_turn, proxy_turn, Connecting, ForwardTask, opening, copying, returned,
  ProxyTask, replying, transferring, proxied, ended, lookup_addr, connect_turn, connect, start,
  forward_once, proxy_once, after_open, after_event, after_reply, after_transfer,
}

module _ (F : F64) (N : IpNets) {W : Type 0} (S : Ssh W) (P : Socks5 W) (C : ReadHalf)
    (T : AsyncWrite) (session : Transport F S) (addr : IpAddr × ℕ) (rx : C.State) (tx : T.State)
    (proto : P.CommandRead) where
  -- An `Ok` of the `select!` comes from its `else` branch.
  abbrev Settled : Connecting F N S P C T → Type 0
  Settled k = k.result ≡ some (ok tt) → (k.forward_task ≡ returned) × (k.proxy_task ≡ proxied)

  ended-Settled :
      (f : ForwardTask F N S P C T) (p : ProxyTask F N S P C T)
      → ended F N S P C T f p ≡ some (ok tt)
      → (f ≡ returned) × (p ≡ proxied)
  ended-Settled returned proxied h = (refl, refl)
  ended-Settled opening p h = cc
  ended-Settled (copying c r) p h = cc
  ended-Settled returned replying h = cc
  ended-Settled returned (transferring x) h = cc

  forward_once-Settled :
      (e : Event) (f : ForwardTask F N S P C T) (k : Connecting F N S P C T)
      → k.result ≡ none
      → Settled (forward_once F N S P C T session addr rx tx e f k)
  unfolding forward_once after_open after_event
  forward_once-Settled e opening k running h =
      elim (Result-cases
        (open_channel S C T F N session (lookup_addr F N S P C T addr) k.world).0) [
          | inl (channel, q) ↦ let r = rw (q, after_open) at h in let never = sym running ∙ r in cc
          | inr (e', q) ↦ let r = rw (q, after_open) at h in cc
        ]
  forward_once-Settled e (copying c r) k running h = ended-Settled _ k.proxy_task h
  forward_once-Settled e returned k running h = let never = sym running ∙ h in cc

  proxy_once-Settled :
      (p : ProxyTask F N S P C T) (k : Connecting F N S P C T)
      → k.result ≡ none
      → Settled (proxy_once F N S P C T proto p k)
  unfolding proxy_once after_reply after_transfer
  proxy_once-Settled replying k running h =
      elim (Result-cases (P.reply_success proto (v4 127 0 0 1, 0) k.world).0) [
        | inl (inner, q) ↦ let r = rw (q, after_reply) at h in let never = sym running ∙ r in cc
        | inr (e, q) ↦ let r = rw (q, after_reply) at h in cc
      ]
  proxy_once-Settled (transferring inner) k running h =
      elim (Bool-cases (P.transfer inner k.world).0) [
        | inl last ↦
            rw (last, after_transfer)
              (ended-Settled k.forward_task proxied (rw (last, after_transfer) at h))
        | inr more ↦ let r = rw (more, after_transfer) at h in let never = sym running ∙ r in cc
      ]
  proxy_once-Settled proxied k running h = let never = sym running ∙ h in cc

  connect_turn-Settled :
      (t : ConnectTurn) (k : Connecting F N S P C T)
      → k.result ≡ none
      → Settled k
      → Settled (connect_turn F N S P C T session addr rx tx proto t k)
  unfolding connect_turn
  connect_turn-Settled (forward_turn e) k running _ =
      forward_once-Settled e k.forward_task k running
  connect_turn-Settled proxy_turn k running _ = proxy_once-Settled k.proxy_task k running

  -- When a connection ends with `Ok`, whatever the order of the turns, both of its futures have
  -- returned `Ok`: `forward`, which does so also where a write to the client has failed, and the
  -- transfer of the client.
  pub connect-ok :
      (ts : List ConnectTurn) (w : W)
      → (connect F N S P C T session addr rx tx proto ts (start F N S P C T w)).result
        ≡ some (ok tt)
      → let k = connect F N S P C T session addr rx tx proto ts (start F N S P C T w) in
        (k.forward_task ≡ returned) × (k.proxy_task ≡ proxied)
  unfolding connect
  connect-ok ts w =
      run_turns-holds (λ x. x.result) (connect_turn F N S P C T session addr rx tx proto) Settled
        connect_turn-Settled ts (start F N S P C T w) (λ h. cc)

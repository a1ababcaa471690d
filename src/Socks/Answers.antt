-- ===== src/Socks/Answers.antt =====
-- What `serve` answers its client, and when.
use x2ssh.Base.{
  ℕ, suc, ◌≡◌, refl, ap, ◌∙◌, List, ◌∷◌, some, Error, Result, ok, err, >>=-ok, ◌>>=◌, pure,
}
use x2ssh.Net.{IpAddr, v4, IpNets}
use x2ssh.Proto.Stream.{AsyncWrite}
use x2ssh.Ssh.{Ssh}
use x2ssh.Retry.Float.{F64}
use x2ssh.Transport.{Transport}
use x2ssh.Transport.Relay.{ReadHalf, Event, open_channel}
use x2ssh.Socks.Protocol.{Socks5, Socks5Command, tcp_connect, tcp_bind, udp_associate}
use x2ssh.Socks.Connect.{ConnectTurn, forward_turn, proxy_turn, lookup_addr, start}
use x2ssh.Socks.Connect.Replies.{CountsErrors, connect-errors, connect_replied_early}
use x2ssh.Socks.Serve.{first_addr, try_notify, accept, answered, dispatch, serve}

module _ (F : F64) (N : IpNets) {W : Type 0} (S : Ssh W) (P : Socks5 W) (C : ReadHalf)
    (T : AsyncWrite) (session : Transport F S) (duplex : ℕ → C.State × T.State)
    (socket : P.Socket) where
  accept-unresolved :
      (w₀ w₁ w₂ w₃ : W) (auth : P.Authenticated)
      (read resolved : P.CommandRead × Socks5Command × P.TargetAddr) (e : Error)
      → P.accept_no_auth socket w₀ ≡ (ok auth, w₁)
      → P.read_command auth w₁ ≡ (ok read, w₂)
      → P.resolve_dns read w₂ ≡ (ok resolved, w₃)
      → first_addr (P.to_socket_addrs resolved.2 w₃).0 ≡ err e
      → accept P socket w₀ ≡ (
        err e,
        (P.reply_error resolved.0 (P.to_reply_error e) (P.to_socket_addrs resolved.2 w₃).1).1,
      )
  unfolding accept try_notify
  accept-unresolved w₀ w₁ w₂ w₃ auth read resolved e h₁ h₂ h₃ h₄ =
      let notify = λ (found : Result (IpAddr × ℕ)).
        try_notify P resolved.0 found >>= λ notified. pure (resolved.1, notified.0, notified.1) in
      >>=-ok (P.accept_no_auth socket) _ w₀ h₁
      ∙ >>=-ok (P.read_command auth) _ w₁ h₂
      ∙ >>=-ok (P.resolve_dns read) _ w₂ h₃
      ∙ ap (λ found. notify found (P.to_socket_addrs resolved.2 w₃).1) h₄

  dispatch-errors :
      (L : CountsErrors S P) (ts : List ConnectTurn)
      (command : Socks5Command × (IpAddr × ℕ) × P.CommandRead) (w : W)
      → L.errors (dispatch P F N S C T session duplex ts command w).1 ≡ L.errors w
  unfolding dispatch
  dispatch-errors L ts (tcp_connect, addr, proto) w =
      let (rx, tx) = duplex 4096 in
      connect-errors F N S P L C T session addr rx tx proto ts (start F N S P C T w)
  dispatch-errors L ts (udp_associate, addr, proto) w = refl
  dispatch-errors L ts (tcp_bind, addr, proto) w = refl

  -- Where the address that `resolve_dns` gives has no socket address, or cannot be converted to
  -- one, `serve` sends its client one error reply and fails.
  pub serve_unresolved :
      (L : CountsErrors S P) (ts : List ConnectTurn) (w₀ w₁ w₂ w₃ : W) (auth : P.Authenticated)
      (read resolved : P.CommandRead × Socks5Command × P.TargetAddr) (e : Error)
      → P.accept_no_auth socket w₀ ≡ (ok auth, w₁)
      → P.read_command auth w₁ ≡ (ok read, w₂)
      → P.resolve_dns read w₂ ≡ (ok resolved, w₃)
      → first_addr (P.to_socket_addrs resolved.2 w₃).0 ≡ err e
      → let w₄ = (P.to_socket_addrs resolved.2 w₃).1 in
        ((serve P F N S C T session duplex socket ts w₀).0 ≡ some (err e))
        × (L.errors (serve P F N S C T session duplex socket ts w₀).1 ≡ suc (L.errors w₄))
  unfolding serve try_notify
  serve_unresolved L ts w₀ w₁ w₂ w₃ auth read resolved e h₁ h₂ h₃ h₄ =
      let w₄ = (P.to_socket_addrs resolved.2 w₃).1 in
      let told = L.errors-reply_error resolved.0 (P.to_reply_error e) w₄ in
      let refused = accept-unresolved w₀ w₁ w₂ w₃ auth read resolved e h₁ h₂ h₃ h₄ in
      let served = ap (λ x. answered P F N S C T session duplex ts x.0 x.1) refused in
      (ap (λ x. x.0) served, ap (λ x. L.errors x.1) served ∙ told)

  -- Once the address is found, no error reply is sent any more, whatever fails.
  pub serve-errors :
      (L : CountsErrors S P) (ts : List ConnectTurn) (w w' : W)
      (command : Socks5Command × (IpAddr × ℕ) × P.CommandRead)
      → accept P socket w ≡ (ok command, w')
      → L.errors (serve P F N S C T session duplex socket ts w).1 ≡ L.errors w'
  unfolding serve
  serve-errors L ts w w' command h =
      ap (λ x. L.errors (answered P F N S C T session duplex ts x.0 x.1).1) h
      ∙ dispatch-errors L ts command w'

  -- `serve` may tell its client that it is connected before the SSH server has been asked: if the
  -- success reply goes out first and the channel cannot be opened then, `serve` fails with that
  -- error, and the world is as the failed opening left it, so that no other reply follows.
  pub serve_replied_early :
      (e : Event) (ts : List ConnectTurn) (w w₁ w₂ w₃ : W) (addr : IpAddr × ℕ)
      (proto : P.CommandRead) (inner : P.Replied) (error : Error)
      → accept P socket w ≡ (ok (tcp_connect, addr, proto), w₁)
      → P.reply_success proto (v4 127 0 0 1, 0) w₁ ≡ (ok inner, w₂)
      → open_channel S C T F N session (lookup_addr F N S P C T addr) w₂ ≡ (err error, w₃)
      → serve P F N S C T session duplex socket (proxy_turn ∷ forward_turn e ∷ ts) w
        ≡ (some (err error), w₃)
  unfolding serve
  serve_replied_early e ts w w₁ w₂ w₃ addr proto inner error h replied refused =
      let (rx, tx) = duplex 4096 in
      let failed =
        connect_replied_early F N S P C T session addr rx tx proto e ts w₁ w₂ w₃ inner error replied
          refused in
      ap (λ x. answered P F N S C T session duplex (proxy_turn ∷ forward_turn e ∷ ts) x.0 x.1) h
      ∙ ap (λ k. (k.result, k.world)) failed

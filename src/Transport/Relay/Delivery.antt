-- ===== src/Transport/Relay/Delivery.antt =====
-- `forward` returns and delivers what the channel sent, whatever the order of its two tasks.
use x2ssh.Base.{ℕ, ◌<◌, ◌≡◌, refl, ap, List, ◌++◌, length, some, ok, Exec}
use x2ssh.Net.{IpAddr, IpNets}
use x2ssh.Proto.Stream.{AsyncWrite, WritesBytes}
use x2ssh.Ssh.{Ssh}
use x2ssh.Retry.Float.{F64}
use x2ssh.Transport.{Transport}
use x2ssh.Vpn.Agent.Receive.{payload}
use x2ssh.Transport.Relay.{ReadHalf, Event, run, open_channel, opened_relay, forward}
use x2ssh.Transport.Relay.Copies.{Accepts, run-Copied, run_ends, channel_events}

module _ {W : Type 0} (S : Ssh W) (C : ReadHalf) (T : AsyncWrite) (L : WritesBytes T)
    (A : Accepts T) where
  -- Once the channel is open, `forward` returns `Ok` as soon as its loop has had a turn for each
  -- message and one more, whatever the other task does between; a client that refuses no write has
  -- then been given exactly the data that the channel delivers up to its end of file, in order.
  pub forward-payload :
      (F : F64) (N : IpNets) (self : Transport F S) (lookup_host : Exec W (List (IpAddr × ℕ)))
      (rx : C.State) (tx : T.State) (es : List Event) (w w' : W) (channel : S.Channel)
      → open_channel S C T F N self lookup_host w ≡ (ok channel, w')
      → length (S.inbox channel w') < channel_events es
      → let r = run S C T channel es (opened_relay S C T channel rx tx w') in
        (forward S C T F N self lookup_host rx tx es w ≡ (some (ok tt), r.world))
        × (L.written r.client_tx ≡ L.written tx ++ payload (S.inbox channel w'))
  unfolding forward opened_relay
  forward-payload F N self lookup_host rx tx es w w' channel opened enough =
      let r₀ = opened_relay S C T channel rx tx w' in
      let over = run_ends S C T L channel es r₀ (λ _. enough) in
      let copied =
        run-Copied S C T L (L.written tx ++ payload (S.inbox channel w')) channel es r₀
          (λ _. refl, λ h _. cc) in
      (rw (opened, forward, ap (λ x. x.1) opened, over) refl, copied.1 over A)

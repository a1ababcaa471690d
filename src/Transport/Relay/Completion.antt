-- ===== src/Transport/Relay/Completion.antt =====
-- `forward` sends all that the client has, if its reading task has the turns for it.
use x2ssh.Base.{
  ℕ, suc, ◌+◌, ◌*◌, ◌≤◌, ◌<◌, ◌≡◌, ◌⊎◌, refl, sym, ap, ◌∙◌, arith, List, [], ◌∷◌, ◌++◌, append-nil,
  append_assoc, length, length-append, true, false, if-holds, inl, inr, none, ok, Exec, Bool-cases,
  Result-cases,
}
use x2ssh.Proto.Stream.{AsyncWrite}
use x2ssh.Net.{IpAddr, IpNets}
use x2ssh.Retry.Float.{F64}
use x2ssh.Transport.{Transport}
use x2ssh.Ssh.{ChannelMsg, data_msg, eof, extended_data, exit_status, other, Ssh}
use x2ssh.Tunnel.Upstream.{SendsBytes}
use x2ssh.Transport.Relay.Untouched.{Keeps, download-Keeps, forwarding-step}
use x2ssh.Transport.Relay.Uploads.{ReadsChunks}
use x2ssh.Transport.Relay.{ReadHalf, Event, from_client, from_channel, Relay, upload, download}
use x2ssh.Transport.Relay.{
  after_read, after_data, after_write, after_flush, finish, step, run, open_channel, opened_relay,
  forward,
}

-- A client whose reads never fail, and give nothing only at its end.
pub record ReadsAll (C : ReadHalf) (LC : ReadsChunks C) : Type 0 where
  pub read_buf-all :
      (n : ℕ) (s : C.State)
      → 0 < n
      → ((LC.content s ≡ []) × (s' : C.State) × (C.read_buf n s ≡ (ok [], s')))
        ⊎ ((b : ℕ) × (bs : List ℕ) × (s' : C.State) × (C.read_buf n s ≡ (ok (b ∷ bs), s')))

-- A channel that takes all data; closing it sends no data.
pub record SendsAll {W : Type 0} (S : Ssh W) (LS : SendsBytes S) (channel : S.Channel)
    : Type 0 where
  pub send_data-all : (bs : List ℕ) (w : W) → (S.send_data channel bs w).0 ≡ ok tt
  pub close-sent : (w : W) → LS.sent channel (S.close channel w).1 ≡ LS.sent channel w

-- The turns of the reading task.
abbrev pub client_events : List Event → ℕ
client_events [] = 0
client_events (from_client ∷ es) = suc (client_events es)
client_events (from_channel ∷ es) = client_events es

module _ {W : Type 0} (S : Ssh W) (LS : SendsBytes S) (C : ReadHalf) (LC : ReadsChunks C)
    (RA : ReadsAll C LC) (T : AsyncWrite) (channel : S.Channel) (SA : SendsAll S LS channel)
    (total : List ℕ) where
  -- How many turns the reading task still needs: two for a byte at most, and one for the end.
  abbrev turns_left : List ℕ → C.State → ℕ
  turns_left [] rx = 2 * length (LC.content rx) + 1
  turns_left (b ∷ bs) rx = 2 * length (LC.content rx) + 2

  -- The task goes on and needs at most so many turns, or it has sent all.
  abbrev Goes : ℕ → Relay S C T → Type 0
  Goes k r =
      ((r.uploading ≡ true)
        × (LS.sent channel r.world ++ (r.buf ++ LC.content r.client_rx) ≡ total)
        × (turns_left r.buf r.client_rx ≤ k))
      ⊎ ((r.uploading ≡ false) × (LS.sent channel r.world ≡ total))

  upload-Goes :
      (k : ℕ) (bs : List ℕ) (r : Relay S C T)
      → r.uploading ≡ true
      → LS.sent channel r.world ++ (bs ++ LC.content r.client_rx) ≡ total
      → turns_left bs r.client_rx ≤ suc k
      → Goes k (upload S C T channel bs r)
  unfolding upload after_read after_data
  upload-Goes k [] r on same few = elim (RA.read_buf-all 4096 r.client_rx (omega arith)) [
    | inl (over', rx, q) ↦
        let all_sent : LS.sent channel r.world ≡ total =
          sym (append-nil (LS.sent channel r.world))
          ∙ ap (λ c. LS.sent channel r.world ++ c) (sym over')
          ∙ same in
        rw q (inr (refl, SA.close-sent r.world ∙ all_sent))
    | inr (b, bs, rx, q) ↦
        let front = LC.read_buf-ok 4096 r.client_rx rx (b ∷ bs) q in
        rw q (
          inl (
            on,
            ap (λ c. LS.sent channel r.world ++ c) (sym front) ∙ same,
            omega (arith, ap length front, length-append bs (LC.content rx)),
          ))
  ]
  upload-Goes k (b ∷ bs) r on same few =
      let w = (S.send_data channel (b ∷ bs) r.world).1 in
      let taken = SA.send_data-all (b ∷ bs) r.world in
      let sent = LS.send_data-ok channel (b ∷ bs) r.world w (ap (λ x. (x, w)) taken) in
      rw taken (
        inl (
          on,
          ap (λ x. x ++ LC.content r.client_rx) sent
              ∙ append_assoc (LS.sent channel r.world) (b ∷ bs) (LC.content r.client_rx)
              ∙ same,
          omega arith,
        ))

  step_client-Goes :
      (k : ℕ) (r : Relay S C T) → Goes (suc k) r → Goes k (step S C T channel from_client r)
  unfolding step
  step_client-Goes k r (inl (on, same, few)) =
      if-holds (Goes k) r.uploading (upload S C T channel r.buf r) r
        (λ _. upload-Goes k r.buf r on same few) (λ off. let never = sym on ∙ off in cc)
  step_client-Goes k r (inr (off, sent)) =
      if-holds (Goes k) r.uploading (upload S C T channel r.buf r) r
        (λ on. let never = sym on ∙ off in cc) (λ _. inr (off, sent))

  -- The loop over the messages does not stop the reading task while it goes on itself.
  download-uploading :
      (ms : List ChannelMsg) (r : Relay S C T)
      → (download S C T ms r).forwarding ≡ true
      → (download S C T ms r).uploading ≡ r.uploading
  unfolding download after_write after_flush finish
  download-uploading [] r on = cc
  download-uploading (eof ∷ ms) r on = cc
  download-uploading (extended_data bs n ∷ ms) r on = refl
  download-uploading (exit_status n ∷ ms) r on = refl
  download-uploading (other ∷ ms) r on = refl
  download-uploading (data_msg bs ∷ ms) r on = elim (Result-cases (T.write_all bs r.client_tx).0) [
    | inr (e, q) ↦ let off = rw (q, after_write) at on in cc
    | inl (_, q) ↦ elim (Result-cases (T.flush (T.write_all bs r.client_tx).1).0) [
      | inr (e, q₂) ↦ let off = rw (q, after_write, q₂, after_flush) at on in cc
      | inl (_, q₂) ↦ rw (q, after_write, q₂, after_flush) refl
    ]
  ]

  Goes-Keeps :
      (k : ℕ) (r r' : Relay S C T)
      → Keeps S C T r r'
      → r'.uploading ≡ r.uploading
      → Goes k r
      → Goes k r'
  Goes-Keeps k r r' (_, world, buf, rx) uploading h = rw (uploading, world, buf, rx) h

  step_channel-Goes :
      (k : ℕ) (r : Relay S C T)
      → (step S C T channel from_channel r).forwarding ≡ true
      → Goes k r
      → Goes k (step S C T channel from_channel r)
  unfolding step
  step_channel-Goes k r going h =
      let r' = download S C T r.inbox r in
      if-holds (λ x. x.forwarding ≡ true → Goes k x) r.forwarding r' r
        (λ _ on.
          Goes-Keeps k r r' (download-Keeps S C T r.inbox r) (download-uploading r.inbox r on) h)
        (λ _ _. h) going

  step-forwarding :
      (e : Event) (r : Relay S C T)
      → (step S C T channel e r).forwarding ≡ true
      → r.forwarding ≡ true
  unfolding step
  step-forwarding from_client r on = sym (forwarding-step S C T channel r) ∙ on
  step-forwarding from_channel r on =
      if-holds (λ x. x.forwarding ≡ true → r.forwarding ≡ true) r.forwarding
        (download S C T r.inbox r) r (λ yes' _. yes') (λ _ h. h) on

  run-forwarding :
      (es : List Event) (r : Relay S C T)
      → (run S C T channel es r).forwarding ≡ true
      → r.forwarding ≡ true
  unfolding run
  run-forwarding [] r on = on
  run-forwarding (e ∷ es) r on = step-forwarding e r (run-forwarding es (step S C T channel e r) on)

  needs_a_turn : (bs : List ℕ) (rx : C.State) → 0 < turns_left bs rx
  needs_a_turn [] rx = omega arith
  needs_a_turn (b ∷ bs) rx = omega arith

  run-Goes :
      (es : List Event) (r : Relay S C T)
      → (run S C T channel es r).forwarding ≡ true
      → Goes (client_events es) r
      → LS.sent channel (run S C T channel es r).world ≡ total
  unfolding run
  run-Goes [] r on (inl (going, same, few)) = absurd (omega (arith, needs_a_turn r.buf r.client_rx))
  run-Goes [] r on (inr (over', sent)) = sent
  run-Goes (from_client ∷ es) r on h =
      run-Goes es (step S C T channel from_client r) on (step_client-Goes (client_events es) r h)
  run-Goes (from_channel ∷ es) r on h =
      let r' = step S C T channel from_channel r in
      run-Goes es r' on (step_channel-Goes (client_events es) r (run-forwarding es r' on) h)

module _ {W : Type 0} (S : Ssh W) (LS : SendsBytes S) (C : ReadHalf) (LC : ReadsChunks C)
    (RA : ReadsAll C LC) (T : AsyncWrite) (channel : S.Channel) (SA : SendsAll S LS channel) where
  -- `forward` that still runs after its reading task has had two turns for each byte of the client
  -- and one more, in any order with those of the other task, has sent the channel all of these
  -- bytes, in order and each once, where the client's reads and the channel's sends do not fail.
  pub forward-sent :
      (F : F64) (N : IpNets) (self : Transport F S) (lookup_host : Exec W (List (IpAddr × ℕ)))
      (rx : C.State) (tx : T.State) (es : List Event) (w w₁ w₂ : W)
      → open_channel S C T F N self lookup_host w ≡ (ok channel, w₁)
      → 2 * length (LC.content rx) < client_events es
      → forward S C T F N self lookup_host rx tx es w ≡ (none, w₂)
      → LS.sent channel w₂ ≡ LS.sent channel w₁ ++ LC.content rx
  unfolding forward opened_relay
  forward-sent F N self lookup_host rx tx es w w₁ w₂ opened enough runs =
      let total = LS.sent channel w₁ ++ LC.content rx in
      let r₀ = opened_relay S C T channel rx tx w₁ in
      let r = run S C T channel es r₀ in
      let ran = rw (opened, forward, ap (λ x. x.1) opened) at runs in
      elim (Bool-cases r.forwarding) [
        | inr off ↦ let ended = rw off at ran in cc
        | inl on ↦
            ap (λ x. LS.sent channel x) (sym (ap (λ x. x.1) ran))
            ∙ run-Goes S LS C LC RA T channel SA total es r₀ on (inl (refl, refl, omega arith))
      ]

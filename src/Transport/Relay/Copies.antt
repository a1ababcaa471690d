-- ===== src/Transport/Relay/Copies.antt =====
-- What `forward` copies, under every interleaving of its two tasks.
use x2ssh.Base.{ℕ, suc, ◌<◌, ◌≡◌, refl, sym, ap, subst, ◌∙◌, arith}
use x2ssh.Base.{
  List, [], ◌∷◌, ◌++◌, append-nil, append_assoc, length, true, false, Bool-cases, if-holds,
}
use x2ssh.Base.{ok, Result-cases, inl, inr}
use x2ssh.Proto.Stream.{AsyncWrite, WritesBytes}
use x2ssh.Ssh.{ChannelMsg, data_msg, eof, extended_data, exit_status, other, Ssh}
use x2ssh.Vpn.Agent.Receive.{payload}
use x2ssh.Transport.Relay.Untouched.{Same, upload-Same}
use x2ssh.Transport.Relay.{
  ReadHalf, Event, from_client, from_channel, Relay, upload, download, finish,
}
use x2ssh.Transport.Relay.{after_write, after_flush, step, run}

-- A client whose writes and flushes never fail.
pub record Accepts (T : AsyncWrite) : Type 0 where
  pub write_all-ok : (bs : List ℕ) (s : T.State) → (T.write_all bs s).0 ≡ ok tt
  pub flush-ok : (s : T.State) → (T.flush s).0 ≡ ok tt

-- The turns of the loop over the channel's messages.
abbrev pub channel_events : List Event → ℕ
channel_events [] = 0
channel_events (from_client ∷ es) = channel_events es
channel_events (from_channel ∷ es) = suc (channel_events es)

module _ {W : Type 0} (S : Ssh W) (C : ReadHalf) (T : AsyncWrite) (L : WritesBytes T) where
  -- The bytes written to the client are those of the channel's messages seen so far, all of them
  -- once the copying is over, unless a write has failed.
  abbrev pub Copied : List ℕ → Relay S C T → Type 0
  Copied total r =
      (r.forwarding ≡ true → L.written r.client_tx ++ payload r.inbox ≡ total)
      × (r.forwarding ≡ false → Accepts T → L.written r.client_tx ≡ total)

  Copied-Same :
      (total : List ℕ) (r r' : Relay S C T) → Same S C T r r' → Copied total r → Copied total r'
  Copied-Same total r r' (tx, inbox, forwarding) (going, over) = (
    λ h. rw (tx, inbox) (going (sym forwarding ∙ h)),
    λ h accepts. rw tx (over (sym forwarding ∙ h) accepts),
  )

  written-data :
      (bs rest : List ℕ) (tx : T.State)
      → (T.write_all bs tx).0 ≡ ok tt
      → (T.flush (T.write_all bs tx).1).0 ≡ ok tt
      → L.written (T.flush (T.write_all bs tx).1).1 ++ rest ≡ L.written tx ++ (bs ++ rest)
  written-data bs rest tx q q₂ =
      let tx' = (T.write_all bs tx).1 in
      let flushed = L.flush-ok tx' (T.flush tx').1 (ap (λ x. (x, (T.flush tx').1)) q₂) in
      let written = L.write_all-ok bs tx tx' (ap (λ x. (x, tx')) q) in
      ap (λ x. x ++ rest) (flushed ∙ written) ∙ append_assoc (L.written tx) bs rest

  download-Copied :
      (ms : List ChannelMsg) (r : Relay S C T)
      → r.forwarding ≡ true
      → Copied (L.written r.client_tx ++ payload ms) (download S C T ms r)
  unfolding download after_write after_flush finish
  download-Copied [] r on = (λ h. cc, λ _ _. sym (append-nil (L.written r.client_tx)))
  download-Copied (eof ∷ ms) r on = (λ h. cc, λ _ _. sym (append-nil (L.written r.client_tx)))
  download-Copied (extended_data bs n ∷ ms) r on = (λ _. refl, λ h. let no_end = sym on ∙ h in cc)
  download-Copied (exit_status n ∷ ms) r on = (λ _. refl, λ h. let no_end = sym on ∙ h in cc)
  download-Copied (other ∷ ms) r on = (λ _. refl, λ h. let no_end = sym on ∙ h in cc)
  download-Copied (data_msg bs ∷ ms) r on = elim (Result-cases (T.write_all bs r.client_tx).0) [
    | inr (e, q) ↦
        rw (q, after_write)
          (λ h. cc, λ _ accepts. let never = sym (accepts.write_all-ok bs r.client_tx) ∙ q in cc)
    | inl (_, q) ↦ elim (Result-cases (T.flush (T.write_all bs r.client_tx).1).0) [
      | inr (e, q₂) ↦
          rw (q, after_write, q₂, after_flush)
            (
              λ h. cc,
              λ _ accepts.
                  let never = sym (accepts.flush-ok (T.write_all bs r.client_tx).1) ∙ q₂ in cc,
            )
      | inl (_, q₂) ↦
          rw (q, after_write, q₂, after_flush)
            (λ _. written-data bs (payload ms) r.client_tx q q₂, λ h. let no_end = sym on ∙ h in cc)
    ]
  ]

  step-Copied :
      (total : List ℕ) (c : S.Channel) (e : Event) (r : Relay S C T)
      → Copied total r
      → Copied total (step S C T c e r)
  unfolding step
  step-Copied total c from_client r h =
      if-holds (Copied total) r.uploading (upload S C T c r.buf r) r
        (λ _. Copied-Same total r (upload S C T c r.buf r) (upload-Same S C T c r.buf r) h) (λ _. h)
  step-Copied total c from_channel r h =
      if-holds (Copied total) r.forwarding (download S C T r.inbox r) r
        (λ on.
          subst (λ t. Copied t (download S C T r.inbox r)) (h.0 on) (download-Copied r.inbox r on))
        (λ _. h)

  pub run-Copied :
      (total : List ℕ) (c : S.Channel) (es : List Event) (r : Relay S C T)
      → Copied total r
      → Copied total (run S C T c es r)
  unfolding run
  run-Copied total c [] r h = h
  run-Copied total c (e ∷ es) r h =
      run-Copied total c es (step S C T c e r) (step-Copied total c e r h)

  -- A channel that is done after `n` more events of it.
  abbrev Bounded : ℕ → Relay S C T → Type 0
  Bounded n r = r.forwarding ≡ true → length r.inbox < n

  download-shrinks :
      (ms : List ChannelMsg) (r : Relay S C T)
      → (download S C T ms r).forwarding ≡ true
      → length (download S C T ms r).inbox < length ms
  unfolding download after_write after_flush finish
  download-shrinks [] r h = cc
  download-shrinks (eof ∷ ms) r h = cc
  download-shrinks (extended_data bs n ∷ ms) r h = omega arith
  download-shrinks (exit_status n ∷ ms) r h = omega arith
  download-shrinks (other ∷ ms) r h = omega arith
  download-shrinks (data_msg bs ∷ ms) r h = elim (Result-cases (T.write_all bs r.client_tx).0) [
    | inr (e, q) ↦ let ended = rw (q, after_write) at h in cc
    | inl (_, q) ↦ elim (Result-cases (T.flush (T.write_all bs r.client_tx).1).0) [
      | inr (e, q₂) ↦ let ended = rw (q, after_write, q₂, after_flush) at h in cc
      | inl (_, q₂) ↦ rw (q, after_write, q₂, after_flush) (omega arith)
    ]
  ]

  step_channel-Bounded :
      (n : ℕ) (c : S.Channel) (r : Relay S C T)
      → Bounded (suc n) r
      → Bounded n (step S C T c from_channel r)
  unfolding step
  step_channel-Bounded n c r h =
      if-holds (Bounded n) r.forwarding (download S C T r.inbox r) r
        (λ on on'. let less = download-shrinks r.inbox r on' in let bound = h on in omega arith)
        (λ off on. let never = sym off ∙ on in cc)

  step_client-Bounded :
      (n : ℕ) (c : S.Channel) (r : Relay S C T)
      → Bounded n r
      → Bounded n (step S C T c from_client r)
  unfolding step
  step_client-Bounded n c r h =
      if-holds (Bounded n) r.uploading (upload S C T c r.buf r) r
        (λ _ on. let (_, inbox, same) = upload-Same S C T c r.buf r in rw inbox (h (sym same ∙ on)))
        (λ _. h)

  pub run_ends :
      (c : S.Channel) (es : List Event) (r : Relay S C T)
      → Bounded (channel_events es) r
      → (run S C T c es r).forwarding ≡ false
  unfolding run
  run_ends c [] r h = elim (Bool-cases r.forwarding) [
    | inl on ↦ let none_left = h on in absurd (omega arith)
    | inr off ↦ off
  ]
  run_ends c (from_client ∷ es) r h =
      run_ends c es (step S C T c from_client r) (step_client-Bounded (channel_events es) c r h)
  run_ends c (from_channel ∷ es) r h =
      run_ends c es (step S C T c from_channel r) (step_channel-Bounded (channel_events es) c r h)

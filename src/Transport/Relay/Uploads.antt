-- ===== src/Transport/Relay/Uploads.antt =====
-- What the reading task of `forward` sends, under every interleaving with the other task.
use x2ssh.Base.{ℕ, ◌≡◌, refl, sym, ap, subst, ◌∙◌}
use x2ssh.Base.{List, [], ◌∷◌, ◌++◌, append_assoc, true, if-holds, Result-cases, inl, inr, ok}
use x2ssh.Proto.Stream.{AsyncWrite}
use x2ssh.Ssh.{Ssh}
use x2ssh.Tunnel.Upstream.{SendsBytes}
use x2ssh.Transport.Relay.Untouched.{Keeps, download-Keeps}
use x2ssh.Transport.Relay.{ReadHalf, Event, from_client, from_channel, Relay, upload, download}
use x2ssh.Transport.Relay.{after_read, after_data, step, run}

-- The bytes that the client still sends: a read takes some from the front.
pub record ReadsChunks (C : ReadHalf) : Type 0 where
  pub content : C.State → List ℕ
  pub read_buf-ok :
      (n : ℕ) (s s' : C.State) (bs : List ℕ)
      → C.read_buf n s ≡ (ok bs, s')
      → content s ≡ bs ++ content s'

module _ {W : Type 0} (S : Ssh W) (LS : SendsBytes S) (C : ReadHalf) (LC : ReadsChunks C)
    (T : AsyncWrite) (channel : S.Channel) where
  -- What was sent, what is in the buffer and what is not read yet are the client's bytes.
  abbrev Uploaded : List ℕ → Relay S C T → Type 0
  Uploaded total r =
      r.uploading ≡ true → LS.sent channel r.world ++ (r.buf ++ LC.content r.client_rx) ≡ total

  upload-Uploaded :
      (bs : List ℕ) (r : Relay S C T)
      → Uploaded
          (LS.sent channel r.world ++ (bs ++ LC.content r.client_rx))
          (upload S C T channel bs r)
  unfolding upload after_read after_data
  upload-Uploaded [] r = elim (Result-cases (C.read_buf 4096 r.client_rx).0) [
    | inl ([], q) ↦ rw (q, after_read) (λ h. cc)
    | inl (b ∷ bs, q) ↦
        let rx = (C.read_buf 4096 r.client_rx).1 in
        let front = LC.read_buf-ok 4096 r.client_rx rx (b ∷ bs) (ap (λ x. (x, rx)) q) in
        rw (q, after_read) (λ _. ap (λ x. LS.sent channel r.world ++ x) (sym front))
    | inr (e, q) ↦ rw (q, after_read) (λ h. cc)
  ]
  upload-Uploaded (b ∷ bs) r = elim (Result-cases (S.send_data channel (b ∷ bs) r.world).0) [
    | inl (_, q) ↦
        let w = (S.send_data channel (b ∷ bs) r.world).1 in
        let sent = LS.send_data-ok channel (b ∷ bs) r.world w (ap (λ x. (x, w)) q) in
        rw (q, after_data)
          (λ _.
            ap (λ x. x ++ LC.content r.client_rx) sent
            ∙ append_assoc (LS.sent channel r.world) (b ∷ bs) (LC.content r.client_rx))
    | inr (e, q) ↦ rw (q, after_data) (λ h. cc)
  ]

  Uploaded-Keeps :
      (total : List ℕ) (r r' : Relay S C T)
      → Keeps S C T r r'
      → Uploaded total r
      → Uploaded total r'
  Uploaded-Keeps total r r' (on, world, buf, rx) h on' = rw (world, buf, rx) (h (on on'))

  step-Uploaded :
      (total : List ℕ) (e : Event) (r : Relay S C T)
      → Uploaded total r
      → Uploaded total (step S C T channel e r)
  unfolding step
  step-Uploaded total from_client r h =
      if-holds (Uploaded total) r.uploading (upload S C T channel r.buf r) r
        (λ on.
          subst (λ t. Uploaded t (upload S C T channel r.buf r)) (h on) (upload-Uploaded r.buf r))
        (λ _. h)
  step-Uploaded total from_channel r h =
      if-holds (Uploaded total) r.forwarding (download S C T r.inbox r) r
        (λ _. Uploaded-Keeps total r (download S C T r.inbox r) (download-Keeps S C T r.inbox r) h)
        (λ _. h)

  run-Uploaded :
      (total : List ℕ) (es : List Event) (r : Relay S C T)
      → Uploaded total r
      → Uploaded total (run S C T channel es r)
  unfolding run
  run-Uploaded total [] r h = h
  run-Uploaded total (e ∷ es) r h =
      run-Uploaded total es (step S C T channel e r) (step-Uploaded total e r h)

  -- Whatever the order of the two tasks, as long as the reading task runs, the channel has been
  -- sent the client's bytes in order: what was sent at first and what the client then had are what
  -- is sent now, the buffer, and what the client still has.
  pub sent-run :
      (es : List Event) (r : Relay S C T)
      → r.uploading ≡ true
      → (run S C T channel es r).uploading ≡ true
      → LS.sent channel (run S C T channel es r).world
          ++ ((run S C T channel es r).buf ++ LC.content (run S C T channel es r).client_rx)
        ≡ LS.sent channel r.world ++ (r.buf ++ LC.content r.client_rx)
  sent-run es r on on' =
      run-Uploaded (LS.sent channel r.world ++ (r.buf ++ LC.content r.client_rx)) es r (λ _. refl)
        on'

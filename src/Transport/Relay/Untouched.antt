-- ===== src/Transport/Relay/Untouched.antt =====
-- What each of the two tasks of `forward` leaves alone.
use x2ssh.Base.{ℕ, ◌≡◌, refl, List, [], ◌∷◌, true, Result-cases, inl, inr, if-holds}
use x2ssh.Proto.Stream.{AsyncWrite}
use x2ssh.Ssh.{ChannelMsg, data_msg, eof, extended_data, exit_status, other, Ssh}
use x2ssh.Transport.Relay.{ReadHalf, from_client, Relay, upload, download, finish, step}
use x2ssh.Transport.Relay.{after_read, after_data, after_write, after_flush}

module _ {W : Type 0} (S : Ssh W) (C : ReadHalf) (T : AsyncWrite) where
  -- The loop over the messages leaves the reading task alone, or stops it.
  abbrev pub Keeps : Relay S C T → Relay S C T → Type 0
  Keeps r r' =
      (r'.uploading ≡ true → r.uploading ≡ true)
      × (r'.world ≡ r.world)
      × (r'.buf ≡ r.buf)
      × (r'.client_rx ≡ r.client_rx)

  pub download-Keeps : (ms : List ChannelMsg) (r : Relay S C T) → Keeps r (download S C T ms r)
  unfolding download after_write after_flush finish
  download-Keeps [] r = (λ h. cc, refl, refl, refl)
  download-Keeps (eof ∷ ms) r = (λ h. cc, refl, refl, refl)
  download-Keeps (extended_data bs n ∷ ms) r = (λ h. h, refl, refl, refl)
  download-Keeps (exit_status n ∷ ms) r = (λ h. h, refl, refl, refl)
  download-Keeps (other ∷ ms) r = (λ h. h, refl, refl, refl)
  download-Keeps (data_msg bs ∷ ms) r = elim (Result-cases (T.write_all bs r.client_tx).0) [
    | inr (e, q) ↦ rw (q, after_write) (λ h. cc, refl, refl, refl)
    | inl (_, q) ↦ elim (Result-cases (T.flush (T.write_all bs r.client_tx).1).0) [
      | inr (e, q₂) ↦ rw (q, after_write, q₂, after_flush) (λ h. cc, refl, refl, refl)
      | inl (_, q₂) ↦ rw (q, after_write, q₂, after_flush) (λ h. h, refl, refl, refl)
    ]
  ]

  -- The reading task leaves the client's write half, the messages and the end of `forward` alone.
  abbrev pub Same : Relay S C T → Relay S C T → Type 0
  Same r r' = (r'.client_tx ≡ r.client_tx) × (r'.inbox ≡ r.inbox) × (r'.forwarding ≡ r.forwarding)

  pub upload-Same : (c : S.Channel) (bs : List ℕ) (r : Relay S C T) → Same r (upload S C T c bs r)
  unfolding upload after_read after_data
  upload-Same c [] r = elim (Result-cases (C.read_buf 4096 r.client_rx).0) [
    | inl ([], q) ↦ rw (q, after_read) (refl, refl, refl)
    | inl (b ∷ bs, q) ↦ rw (q, after_read) (refl, refl, refl)
    | inr (e, q) ↦ rw (q, after_read) (refl, refl, refl)
  ]
  upload-Same c (b ∷ bs) r = elim (Result-cases (S.send_data c (b ∷ bs) r.world).0) [
    | inl (_, q) ↦ rw (q, after_data) (refl, refl, refl)
    | inr (e, q) ↦ rw (q, after_data) (refl, refl, refl)
  ]

  pub forwarding-step :
      (c : S.Channel) (r : Relay S C T) → (step S C T c from_client r).forwarding ≡ r.forwarding
  unfolding step
  forwarding-step c r =
      if-holds (λ x. x.forwarding ≡ r.forwarding) r.uploading (upload S C T c r.buf r) r
        (λ _. let (_, _, kept) = upload-Same c r.buf r in kept) (λ _. refl)

-- ===== src/Transport/Relay/Worlds.antt =====
-- What the copying of `forward` leaves alone in the outside world.
use x2ssh.Base.{ℕ, ◌≡◌, refl, ap, List, [], ◌∷◌, if-holds, Result-cases, inl, inr}
use x2ssh.Proto.Stream.{AsyncWrite}
use x2ssh.Ssh.{Ssh}
use x2ssh.Transport.Relay.{
  ReadHalf, Event, from_client, from_channel, Relay, upload, download, step,
}
use x2ssh.Transport.Relay.{after_read, after_data}
use x2ssh.Transport.Relay.Untouched.{download-Keeps}

-- A quantity of the world that data on a channel, and its closing, do not change.
module _ {W : Type 0} (S : Ssh W) (C : ReadHalf) (T : AsyncWrite) (quantity : W → ℕ)
    (quantity-send : (c : S.Channel) (bs : List ℕ) (w : W)
      → quantity (S.send_data c bs w).1 ≡ quantity w)
    (quantity-close : (c : S.Channel) (w : W) → quantity (S.close c w).1 ≡ quantity w) where
  quantity-upload :
      (c : S.Channel) (bs : List ℕ) (r : Relay S C T)
      → quantity (upload S C T c bs r).world ≡ quantity r.world
  unfolding upload after_read after_data
  quantity-upload c [] r = elim (Result-cases (C.read_buf 4096 r.client_rx).0) [
    | inl ([], q) ↦ rw (q, after_read) (quantity-close c r.world)
    | inl (b ∷ bs, q) ↦ rw (q, after_read) refl
    | inr (e, q) ↦ rw (q, after_read) refl
  ]
  quantity-upload c (b ∷ bs) r = elim (Result-cases (S.send_data c (b ∷ bs) r.world).0) [
    | inl (_, q) ↦ rw (q, after_data) (quantity-send c (b ∷ bs) r.world)
    | inr (e, q) ↦ rw (q, after_data) (quantity-send c (b ∷ bs) r.world)
  ]

  pub quantity-step :
      (c : S.Channel) (e : Event) (r : Relay S C T)
      → quantity (step S C T c e r).world ≡ quantity r.world
  unfolding step
  quantity-step c from_client r =
      if-holds (λ x. quantity x.world ≡ quantity r.world) r.uploading (upload S C T c r.buf r) r
        (λ _. quantity-upload c r.buf r) (λ _. refl)
  quantity-step c from_channel r =
      if-holds (λ x. quantity x.world ≡ quantity r.world) r.forwarding (download S C T r.inbox r) r
        (λ _. let (_, same, _, _) = download-Keeps S C T r.inbox r in ap quantity same) (λ _. refl)

-- ===== src/Tunnel/Upstream.antt =====
-- From the client's TUN device to the server's: `tun_to_agent` of the client, the channel, and
-- `client_to_tun` of the agent.
use x2ssh.Base.{ℕ, zero, suc, ◌<◌, ◌≡◌, refl, sym, ap, ◌∙◌, List, [], ◌∷◌, ◌++◌, length, All, arith}
use x2ssh.Base.{append-nil, append_assoc}
use x2ssh.Base.{none, some, Error, ok, Result-cases, inl, inr, >>=-eq-ok}
use x2ssh.Proto.Stream.{AsyncRead, ReadsBytes}
use x2ssh.Proto.Framing.{read_framed}
use x2ssh.Proto.RoundTrip.{frame, frames, Fits, read_framed-frame, read_framed_eof}
use x2ssh.Ssh.{Ssh}
use x2ssh.TunRs.{Tun, FitsBuffer}
use x2ssh.AgentMain.{client_to_tun}
use x2ssh.Vpn.Agent.{send_packet}
use x2ssh.Vpn.Forward.{tun_to_agent}
use x2ssh.Tunnel.Received.{received, send_until_error, received-Fits}

-- The bytes sent on each channel: data that was sent with success has been appended.
pub record SendsBytes {W : Type 0} (S : Ssh W) : Type 0 where
  pub sent : S.Channel → W → List ℕ
  pub send_data-ok :
      (c : S.Channel) (bs : List ℕ) (w w' : W)
      → S.send_data c bs w ≡ (ok tt, w')
      → sent c w' ≡ sent c w ++ bs

module _ {W : Type 0} (S : Ssh W) (L : SendsBytes S) where
  pub sent-send_packet :
      (c : S.Channel) (p : List ℕ) (w w' : W)
      → send_packet S c p w ≡ (ok tt, w')
      → L.sent c w' ≡ L.sent c w ++ frame p
  unfolding send_packet
  sent-send_packet c p w w' h =
      let (_, w₁, e, h₁) = >>=-eq-ok (S.send_data c (frame p)) _ w h in
      let same : w₁ ≡ w' = cc in ap (L.sent c) (sym same) ∙ L.send_data-ok c (frame p) w w₁ e

  -- As long as `tun_to_agent` runs, the channel has been sent the frames of the packets received.
  pub sent-tun_to_agent :
      (T : Tun) (n : ℕ) (c : S.Channel) (t t' : T.State) (w w' : W)
      → tun_to_agent S T n c t w ≡ (none, t', w')
      → L.sent c w' ≡ L.sent c w ++ frames (received T n t)
  unfolding tun_to_agent received
  sent-tun_to_agent T zero c t t' w w' h =
      let same : w ≡ w' = cc in ap (L.sent c) (sym same) ∙ sym (append-nil (L.sent c w))
  sent-tun_to_agent T (suc n) c t t' w w' h = elim (Result-cases (T.recv 2048 t).0) [
    | inl (p, q) ↦ elim (Result-cases (send_packet S c p w).0) [
      | inl (_, q₂) ↦
          let w₁ = (send_packet S c p w).1 in
          let head = sent-send_packet c p w w₁ (ap (λ r. (r, w₁)) q₂) in
          let rest : L.sent c w' ≡ L.sent c w₁ ++ frames (received T n (T.recv 2048 t).1) =
            sent-tun_to_agent T n c (T.recv 2048 t).1 t' w₁ w' (rw (q, q₂, tun_to_agent) at h) in
          rw q (
            rest
            ∙ ap (λ b. b ++ frames (received T n (T.recv 2048 t).1)) head
            ∙ append_assoc (L.sent c w) (frame p) _)
      | inr (e, q₂) ↦ let no_run = rw (q, q₂, tun_to_agent) at h in cc
    ]
    | inr (e, q) ↦ let no_run = rw (q, tun_to_agent) at h in cc
  ]

module _ (R : AsyncRead) (L : ReadsBytes R) (T : Tun) where
  -- `client_to_tun` hands every packet of a framed stream to the device, in order, up to the first
  -- that the device refuses; then, or at the end of the stream, it ends with an error.
  pub client_to_tun-frames :
      (ps : List (List ℕ)) (fuel : ℕ) (r : R.State) (t : T.State)
      → All Fits ps
      → L.remaining r ≡ frames ps
      → length ps < fuel
      → ((client_to_tun R T fuel r t).1 ≡ (send_until_error T ps t).1)
        × (e : Error) × ((client_to_tun R T fuel r t).0 ≡ some e)
  unfolding client_to_tun send_until_error
  client_to_tun-frames ps zero r t fits h enough = elim enough [ ]
  client_to_tun-frames [] (suc fuel) r t fits h enough =
      let (e, q) = read_framed_eof R L r h in rw (q, client_to_tun) (refl, e, refl)
  client_to_tun-frames (p ∷ ps) (suc fuel) r t fits h enough =
      let (q, rest) = read_framed-frame R L p (frames ps) r fits.0 h in
      rw (q, client_to_tun)
        (elim (Result-cases (T.send p t).0) [
          | inl (_, sent) ↦
              rw (sent, send_until_error)
                (client_to_tun-frames ps fuel (read_framed R r).1 (T.send p t).1 fits.1 rest
                  (omega arith))
          | inr (e, failed) ↦ rw (failed, send_until_error) (refl, e, refl)
        ])

module _ {W : Type 0} (S : Ssh W) (LS : SendsBytes S) (C : Tun) (F : FitsBuffer C) (R : AsyncRead)
    (LR : ReadsBytes R) (A : Tun) where
  -- What the client's `tun_to_agent` has read from its device by the n-th round, it has sent on the
  -- channel; an agent whose stdin holds these bytes hands the same packets to its own device, in
  -- the same order, up to the first that the device refuses, and then ends with an error.
  pub upstream :
      (n fuel : ℕ) (channel : S.Channel) (c c' : C.State) (w w' : W) (r : R.State) (a : A.State)
      → tun_to_agent S C n channel c w ≡ (none, c', w')
      → LS.sent channel w ≡ []
      → LR.remaining r ≡ LS.sent channel w'
      → length (received C n c) < fuel
      → ((client_to_tun R A fuel r a).1 ≡ (send_until_error A (received C n c) a).1)
        × (e : Error) × ((client_to_tun R A fuel r a).0 ≡ some e)
  upstream n fuel channel c c' w w' r a ran fresh same enough =
      client_to_tun-frames R LR A (received C n c) fuel r a (received-Fits C F n c)
        (same
          ∙ sent-tun_to_agent S LS C n channel c c' w w' ran
          ∙ ap (λ b. b ++ frames (received C n c)) fresh)
        enough

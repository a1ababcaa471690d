-- ===== src/Tunnel/Downstream.antt =====
-- From the server's TUN device to the client's: `tun_to_client` of the agent, the channel, and
-- `agent_to_tun` of the client.
use x2ssh.Base.{ℕ, zero, suc, ◌<◌, ◌≡◌, refl, sym, ap, ◌∙◌, List, [], ◌∷◌, ◌++◌, length, All, arith}
use x2ssh.Base.{append-nil, append_assoc}
use x2ssh.Base.{none, some, ok, Result-cases, inl, inr}
use x2ssh.Proto.Stream.{AsyncWrite, WritesBytes}
use x2ssh.Proto.Framing.{write_framed}
use x2ssh.Proto.RoundTrip.{frame, frames, Fits, written-write_framed}
use x2ssh.TunRs.{Tun, FitsBuffer}
use x2ssh.AgentMain.{tun_to_client}
use x2ssh.Vpn.Agent.{Reader, recv_packet}
use x2ssh.Vpn.Agent.Receive.{stream}
use x2ssh.Vpn.Agent.Frames.{recv_packet-frame, recv_packet_empty}
use x2ssh.Vpn.Forward.{agent_to_tun}
use x2ssh.Tunnel.Received.{received, send_each, received-Fits}

module _ (W : AsyncWrite) (L : WritesBytes W) (T : Tun) where
  -- As long as `tun_to_client` runs, stdout has the frames of the packets received.
  pub written-tun_to_client :
      (n : ℕ) (t t' : T.State) (w w' : W.State)
      → tun_to_client W T n t w ≡ (none, t', w')
      → L.written w' ≡ L.written w ++ frames (received T n t)
  unfolding tun_to_client received
  written-tun_to_client zero t t' w w' h =
      let same : w ≡ w' = cc in ap L.written (sym same) ∙ sym (append-nil (L.written w))
  written-tun_to_client (suc n) t t' w w' h = elim (Result-cases (T.recv 2048 t).0) [
    | inl (p, q) ↦ elim (Result-cases (write_framed W p w).0) [
      | inl (_, q₂) ↦
          let w₁ = (write_framed W p w).1 in
          let head = written-write_framed W L p w w₁ (ap (λ r. (r, w₁)) q₂) in
          let rest : L.written w' ≡ L.written w₁ ++ frames (received T n (T.recv 2048 t).1) =
            written-tun_to_client n (T.recv 2048 t).1 t' w₁ w' (rw (q, q₂, tun_to_client) at h) in
          rw q (
            rest
            ∙ ap (λ b. b ++ frames (received T n (T.recv 2048 t).1)) head
            ∙ append_assoc (L.written w) (frame p) _)
      | inr (e, q₂) ↦ let no_run = rw (q, q₂, tun_to_client) at h in cc
    ]
    | inr (e, q) ↦ let no_run = rw (q, tun_to_client) at h in cc
  ]

module _ (T : Tun) where
  -- `agent_to_tun` sends every packet of a framed stream to the device, in order, whatever the
  -- device answers, and ends with `Ok(())`.
  pub agent_to_tun-frames :
      (ps : List (List ℕ)) (fuel : ℕ) (r : Reader) (t : T.State)
      → All Fits ps
      → stream r ≡ frames ps
      → length ps < fuel
      → ((agent_to_tun T fuel r t).0 ≡ some (ok tt))
        × ((agent_to_tun T fuel r t).2 ≡ send_each T ps t)
  unfolding agent_to_tun send_each
  agent_to_tun-frames ps zero r t fits h enough = elim enough [ ]
  agent_to_tun-frames [] (suc fuel) r t fits h enough =
      rw (recv_packet_empty r h, agent_to_tun) (refl, refl)
  agent_to_tun-frames (p ∷ ps) (suc fuel) r t fits h enough =
      let (e, rest) = recv_packet-frame p fits.0 (frames ps) r h in
      rw (e, agent_to_tun)
        (agent_to_tun-frames ps fuel (recv_packet r).1 (T.send p t).1 fits.1 rest (omega arith))

module _ (W : AsyncWrite) (L : WritesBytes W) (A : Tun) (F : FitsBuffer A) (C : Tun) where
  -- What the agent's `tun_to_client` has read from its device by the n-th round, it has framed to
  -- stdout; a client whose channel delivers these bytes, in messages cut in any way, sends the same
  -- packets to its own device, in the same order, and then sees the end of the stream.
  pub downstream :
      (n fuel : ℕ) (a a' : A.State) (w w' : W.State) (r : Reader) (c : C.State)
      → tun_to_client W A n a w ≡ (none, a', w')
      → L.written w ≡ []
      → stream r ≡ L.written w'
      → length (received A n a) < fuel
      → ((agent_to_tun C fuel r c).0 ≡ some (ok tt))
        × ((agent_to_tun C fuel r c).2 ≡ send_each C (received A n a) c)
  downstream n fuel a a' w w' r c ran fresh same enough =
      agent_to_tun-frames C (received A n a) fuel r c (received-Fits A F n a)
        (same
          ∙ written-tun_to_client W L A n a a' w w' ran
          ∙ ap (λ b. b ++ frames (received A n a)) fresh)
        enough

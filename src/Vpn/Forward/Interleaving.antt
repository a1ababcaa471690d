-- ===== src/Vpn/Forward/Interleaving.antt =====
-- Each task of `VpnSession::forward` does what it would do alone, under every interleaving.
use x2ssh.Base.{
  ℕ, suc, ◌≡◌, refl, sym, ap, subst, ◌∙◌, List, [], ◌∷◌, ◌++◌, append-nil, append_assoc,
}
use x2ssh.Base.{none, some, Option-cases, ok, Result-cases, inl, inr, run_turns-step}
use x2ssh.Ssh.{Ssh}
use x2ssh.TunRs.{Tun, FullDuplex}
use x2ssh.Proto.RoundTrip.{frame, frames}
use x2ssh.Vpn.Agent.{Reader, send_packet, recv_packet}
use x2ssh.Vpn.Forward.{tun_to_agent, agent_to_tun}
use x2ssh.Vpn.Forward.Tasks.{Turn, up, down, Forwarding, take_turn, turns}
use x2ssh.Vpn.Agent.Receive.{stream, next_packet, Receives, recv_packet-next_packet}
use x2ssh.Tunnel.Packets.{first_packets, first_packets-suc}
use x2ssh.Base.{length}
use x2ssh.Tunnel.Received.{received, take_received, received-incoming, put_all}
use x2ssh.Tunnel.Upstream.{SendsBytes, sent-send_packet}

-- How often a task had its turn.
abbrev pub ups : List Turn → ℕ
ups [] = 0
ups (up ∷ ts) = suc (ups ts)
ups (down ∷ ts) = ups ts

abbrev pub downs : List Turn → ℕ
downs [] = 0
downs (up ∷ ts) = downs ts
downs (down ∷ ts) = suc (downs ts)

recv_packet-some :
    (r : Reader) (p : List ℕ)
    → (recv_packet r).0 ≡ ok (some p)
    → next_packet (stream r) ≡ some (p, stream (recv_packet r).1)
recv_packet-some r p h = elim (Option-cases (next_packet (stream r))) [
  | inl no_packet ↦
      let (closed, _) =
        subst (λ o. Receives (stream r) o (recv_packet r)) no_packet (recv_packet-next_packet r) in
      let never = sym closed ∙ h in cc
  | inr ((q, rest), packet) ↦
      let (got, left) =
        subst (λ o. Receives (stream r) o (recv_packet r)) packet (recv_packet-next_packet r) in
      let same = sym got ∙ h in cc
]

module _ {W : Type 0} (S : Ssh W) (T : Tun) (agent : S.Channel) where
  -- The packet of a turn of `tun_to_agent` that did not end it.
  abbrev Up : Forwarding S T → Forwarding S T → Type 0
  Up f f' =
      (p : List ℕ) × ((T.recv 2048 f.device).0 ≡ ok p)
      × (f'.device ≡ (T.recv 2048 f.device).1)
      × (f'.reader ≡ f.reader)
      × (send_packet S agent p f.world ≡ (ok tt, f'.world))

  turn-Up :
      (f : Forwarding S T)
      → (take_turn S T agent up f).result ≡ none
      → Up f (take_turn S T agent up f)
  unfolding take_turn tun_to_agent
  turn-Up f h = elim (Result-cases (T.recv 2048 f.device).0) [
    | inl (p, q) ↦ elim (Result-cases (send_packet S agent p f.world).0) [
      | inl (_, q₂) ↦
          rw (q, tun_to_agent, q₂)
            (p, refl, refl, refl, ap (λ r. (r, (send_packet S agent p f.world).1)) q₂)
      | inr (e, q₂) ↦ let no_run = rw (q, tun_to_agent, q₂) at h in cc
    ]
    | inr (e, q) ↦ let no_run = rw (q, tun_to_agent) at h in cc
  ]

  abbrev Down : Forwarding S T → Forwarding S T → Type 0
  Down f f' =
      (p : List ℕ) × ((recv_packet f.reader).0 ≡ ok (some p))
      × (f'.reader ≡ (recv_packet f.reader).1)
      × (f'.device ≡ (T.send p f.device).1)
      × (f'.world ≡ f.world)

  turn-Down :
      (f : Forwarding S T)
      → (take_turn S T agent down f).result ≡ none
      → Down f (take_turn S T agent down f)
  unfolding take_turn agent_to_tun
  turn-Down f h = elim (Result-cases (recv_packet f.reader).0) [
    | inl (none, q) ↦ let no_run = rw (q, agent_to_tun) at h in cc
    | inl (some p, q) ↦ rw (q, agent_to_tun) (p, refl, refl, refl, refl)
    | inr (e, q) ↦ let no_run = rw (q, agent_to_tun) at h in cc
  ]

module _ {W : Type 0} (S : Ssh W) (L : SendsBytes S) (T : Tun) (D : FullDuplex T)
    (agent : S.Channel) where
  -- As long as both tasks of `forward` run, in whatever order, the channel has been sent the frames
  -- of the packets that the device would have given to `tun_to_agent` alone, one for each turn.
  pub sent-turns :
      (ts : List Turn) (f : Forwarding S T)
      → (turns S T agent ts f).result ≡ none
      → L.sent agent (turns S T agent ts f).world
        ≡ L.sent agent f.world ++ frames (received T (ups ts) f.device)
  unfolding turns received
  sent-turns [] f h = sym (append-nil (L.sent agent f.world))
  sent-turns (up ∷ ts) f h =
      let f' = take_turn S T agent up f in
      let (step, h', running) = run_turns-step (λ x. x.result) (take_turn S T agent) up ts f h in
      let (p, got, device, _, sent) = turn-Up S T agent f running in
      ap (λ x. L.sent agent x.world) step
      ∙ sent-turns ts f' h'
      ∙ ap (λ b. b ++ frames (received T (ups ts) f'.device))
          (sent-send_packet S L agent p f.world f'.world sent)
      ∙ append_assoc (L.sent agent f.world) (frame p) (frames (received T (ups ts) f'.device))
      ∙ ap (λ d. L.sent agent f.world ++ (frame p ++ frames (received T (ups ts) d))) device
      ∙ ap
          (λ r.
            L.sent agent f.world
            ++ frames (take_received T r (received T (ups ts) (T.recv 2048 f.device).1)))
          (sym got)
  sent-turns (down ∷ ts) f h =
      let f' = take_turn S T agent down f in
      let (step, h', running) = run_turns-step (λ x. x.result) (take_turn S T agent) down ts f h in
      let (p, _, _, device, world) = turn-Down S T agent f running in
      let same = ap D.incoming device ∙ D.incoming-send p f.device in
      ap (λ x. L.sent agent x.world) step
      ∙ sent-turns ts f' h'
      ∙ ap (λ w. L.sent agent w ++ frames (received T (ups ts) f'.device)) world
      ∙ ap (λ ps. L.sent agent f.world ++ frames ps)
          (received-incoming T D (ups ts) f'.device f.device same)

module _ {W : Type 0} (S : Ssh W) (T : Tun) (D : FullDuplex T) (agent : S.Channel) where
  outgoing_and_count :
      (ts : List Turn) (f : Forwarding S T)
      → (turns S T agent ts f).result ≡ none
      → let ps = first_packets (downs ts) (stream f.reader) in
        (D.outgoing (turns S T agent ts f).device ≡ put_all D ps (D.outgoing f.device))
        × (length ps ≡ downs ts)
  unfolding turns first_packets
  outgoing_and_count [] f h = (refl, refl)
  outgoing_and_count (up ∷ ts) f h =
      let f' = take_turn S T agent up f in
      let (step, h', running) = run_turns-step (λ x. x.result) (take_turn S T agent) up ts f h in
      let (_, _, device, reader, _) = turn-Up S T agent f running in
      let (out, count) = outgoing_and_count ts f' h' in
      (
        ap (λ x. D.outgoing x.device) step
            ∙ out
            ∙ ap (λ r. put_all D (first_packets (downs ts) (stream r)) (D.outgoing f'.device))
                reader
            ∙ ap (put_all D (first_packets (downs ts) (stream f.reader)))
                (ap D.outgoing device ∙ D.outgoing-recv 2048 f.device),
        ap (λ r. length (first_packets (downs ts) (stream r))) (sym reader) ∙ count,
      )
  outgoing_and_count (down ∷ ts) f h =
      let f' = take_turn S T agent down f in
      let (step, h', running) = run_turns-step (λ x. x.result) (take_turn S T agent) down ts f h in
      let (p, got, reader, device, _) = turn-Down S T agent f running in
      let head =
        first_packets-suc (downs ts) (stream f.reader) p _ (recv_packet-some f.reader p got) in
      let (out, count) = outgoing_and_count ts f' h' in
      (
        ap (λ x. D.outgoing x.device) step
            ∙ out
            ∙ ap (λ r. put_all D (first_packets (downs ts) (stream r)) (D.outgoing f'.device))
                reader
            ∙ ap (put_all D (first_packets (downs ts) (stream (recv_packet f.reader).1)))
                (ap D.outgoing device ∙ D.outgoing-send p f.device)
            ∙ ap (λ ps. put_all D ps (D.outgoing f.device)) (sym head),
        ap length head
            ∙ ap suc (ap (λ r. length (first_packets (downs ts) (stream r))) (sym reader) ∙ count),
      )

  -- As long as both tasks run, the device has been sent the packets of the channel's byte stream
  -- in order, one for each turn of `agent_to_tun`, as if that task ran alone.
  pub outgoing-turns :
      (ts : List Turn) (f : Forwarding S T)
      → (turns S T agent ts f).result ≡ none
      → D.outgoing (turns S T agent ts f).device
        ≡ put_all D (first_packets (downs ts) (stream f.reader)) (D.outgoing f.device)
  outgoing-turns ts f h = (outgoing_and_count ts f h).0

  -- Each turn of `agent_to_tun` that left the tasks running had a packet.
  pub downs-first_packets :
      (ts : List Turn) (f : Forwarding S T)
      → (turns S T agent ts f).result ≡ none
      → length (first_packets (downs ts) (stream f.reader)) ≡ downs ts
  downs-first_packets ts f h = (outgoing_and_count ts f h).1

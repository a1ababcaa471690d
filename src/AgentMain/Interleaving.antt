-- ===== src/AgentMain/Interleaving.antt =====
-- Each task of the agent does what it would do alone, under every interleaving.
use x2ssh.Base.{
  ℕ, suc, ◌≡◌, refl, sym, ap, ◌∙◌, List, [], ◌∷◌, ◌++◌, append-nil, append_assoc, length,
}
use x2ssh.Base.{none, ok, Result-cases, inl, inr, run_turns-step}
use x2ssh.Proto.Stream.{AsyncRead, ReadsBytes, AsyncWrite, WritesBytes}
use x2ssh.Proto.Framing.{read_framed, write_framed}
use x2ssh.Proto.RoundTrip.{frame, frames, written-write_framed}
use x2ssh.TunRs.{Tun, FullDuplex}
use x2ssh.AgentMain.{client_to_tun, tun_to_client}
use x2ssh.AgentMain.Tasks.{Side, from_client, from_tun, Bridge, bridge_turn, bridge}
use x2ssh.Base.{suc, length}
use x2ssh.Tunnel.Packets.{first_packets, first_packets-suc, read_framed-next_packet}
use x2ssh.Tunnel.Received.{received, take_received, received-incoming, put_all}

-- How often a task had its turn.
abbrev pub client_turns : List Side → ℕ
client_turns [] = 0
client_turns (from_client ∷ ts) = suc (client_turns ts)
client_turns (from_tun ∷ ts) = client_turns ts

abbrev pub tun_turns : List Side → ℕ
tun_turns [] = 0
tun_turns (from_client ∷ ts) = tun_turns ts
tun_turns (from_tun ∷ ts) = suc (tun_turns ts)

module _ (R : AsyncRead) (A : AsyncWrite) (T : Tun) where
  -- The packet of a turn that did not end the agent.
  abbrev FromTun : Bridge R A T → Bridge R A T → Type 0
  FromTun b b' =
      (p : List ℕ) × ((T.recv 2048 b.tun).0 ≡ ok p)
      × (b'.tun ≡ (T.recv 2048 b.tun).1)
      × (b'.stdin ≡ b.stdin)
      × (write_framed A p b.stdout ≡ (ok tt, b'.stdout))

  turn-FromTun :
      (b : Bridge R A T)
      → (bridge_turn R A T from_tun b).failure ≡ none
      → FromTun b (bridge_turn R A T from_tun b)
  unfolding bridge_turn tun_to_client
  turn-FromTun b h = elim (Result-cases (T.recv 2048 b.tun).0) [
    | inl (p, q) ↦ elim (Result-cases (write_framed A p b.stdout).0) [
      | inl (_, q₂) ↦
          rw (q, tun_to_client, q₂)
            (p, refl, refl, refl, ap (λ r. (r, (write_framed A p b.stdout).1)) q₂)
      | inr (e, q₂) ↦ let no_run = rw (q, tun_to_client, q₂) at h in cc
    ]
    | inr (e, q) ↦ let no_run = rw (q, tun_to_client) at h in cc
  ]

  abbrev FromClient : Bridge R A T → Bridge R A T → Type 0
  FromClient b b' =
      (p : List ℕ) × ((read_framed R b.stdin).0 ≡ ok p)
      × (b'.stdin ≡ (read_framed R b.stdin).1)
      × (b'.tun ≡ (T.send p b.tun).1)
      × (b'.stdout ≡ b.stdout)

  turn-FromClient :
      (b : Bridge R A T)
      → (bridge_turn R A T from_client b).failure ≡ none
      → FromClient b (bridge_turn R A T from_client b)
  unfolding bridge_turn client_to_tun
  turn-FromClient b h = elim (Result-cases (read_framed R b.stdin).0) [
    | inl (p, q) ↦ elim (Result-cases (T.send p b.tun).0) [
      | inl (_, q₂) ↦ rw (q, client_to_tun, q₂) (p, refl, refl, refl, refl)
      | inr (e, q₂) ↦ let no_run = rw (q, client_to_tun, q₂) at h in cc
    ]
    | inr (e, q) ↦ let no_run = rw (q, client_to_tun) at h in cc
  ]

module _ (R : AsyncRead) (A : AsyncWrite) (LA : WritesBytes A) (T : Tun) (D : FullDuplex T) where
  written-bridge :
      (ts : List Side) (b : Bridge R A T)
      → (bridge R A T ts b).failure ≡ none
      → LA.written (bridge R A T ts b).stdout
        ≡ LA.written b.stdout ++ frames (received T (tun_turns ts) b.tun)
  unfolding bridge received
  written-bridge [] b h = sym (append-nil (LA.written b.stdout))
  written-bridge (from_client ∷ ts) b h =
      let b' = bridge_turn R A T from_client b in
      let (step, h', running) =
        run_turns-step (λ x. x.failure) (bridge_turn R A T) from_client ts b h in
      let (p, _, _, tun, stdout) = turn-FromClient R A T b running in
      let same = ap D.incoming tun ∙ D.incoming-send p b.tun in
      ap (λ x. LA.written x.stdout) step
      ∙ written-bridge ts b' h'
      ∙ ap (λ o. LA.written o ++ frames (received T (tun_turns ts) b'.tun)) stdout
      ∙ ap (λ ps. LA.written b.stdout ++ frames ps)
          (received-incoming T D (tun_turns ts) b'.tun b.tun same)
  written-bridge (from_tun ∷ ts) b h =
      let b' = bridge_turn R A T from_tun b in
      let (step, h', running) =
        run_turns-step (λ x. x.failure) (bridge_turn R A T) from_tun ts b h in
      let (p, got, tun, _, sent) = turn-FromTun R A T b running in
      ap (λ x. LA.written x.stdout) step
      ∙ written-bridge ts b' h'
      ∙ ap (λ x. x ++ frames (received T (tun_turns ts) b'.tun))
          (written-write_framed A LA p b.stdout b'.stdout sent)
      ∙ append_assoc (LA.written b.stdout) (frame p) (frames (received T (tun_turns ts) b'.tun))
      ∙ ap (λ t. LA.written b.stdout ++ (frame p ++ frames (received T (tun_turns ts) t))) tun
      ∙ ap
          (λ r.
            LA.written b.stdout
            ++ frames (take_received T r (received T (tun_turns ts) (T.recv 2048 b.tun).1)))
          (sym got)

module _ (R : AsyncRead) (LR : ReadsBytes R) (A : AsyncWrite) (T : Tun) (D : FullDuplex T) where
  outgoing_and_count :
      (ts : List Side) (b : Bridge R A T)
      → (bridge R A T ts b).failure ≡ none
      → let ps = first_packets (client_turns ts) (LR.remaining b.stdin) in
        (D.outgoing (bridge R A T ts b).tun ≡ put_all D ps (D.outgoing b.tun))
        × (length ps ≡ client_turns ts)
  unfolding bridge first_packets
  outgoing_and_count [] b h = (refl, refl)
  outgoing_and_count (from_client ∷ ts) b h =
      let b' = bridge_turn R A T from_client b in
      let (step, h', running) =
        run_turns-step (λ x. x.failure) (bridge_turn R A T) from_client ts b h in
      let (p, got, stdin, tun, _) = turn-FromClient R A T b running in
      let head = first_packets-suc (client_turns ts) (LR.remaining b.stdin) p _ (
        read_framed-next_packet R LR b.stdin (read_framed R b.stdin).1 p
          (ap (λ r. (r, (read_framed R b.stdin).1)) got)) in
      let (out, count) = outgoing_and_count ts b' h' in
      (
        ap (λ x. D.outgoing x.tun) step
            ∙ out
            ∙ ap
                (λ r.
                  put_all D (first_packets (client_turns ts) (LR.remaining r)) (D.outgoing b'.tun))
                stdin
            ∙ ap
                (put_all D
                  (first_packets (client_turns ts) (LR.remaining (read_framed R b.stdin).1)))
                (ap D.outgoing tun ∙ D.outgoing-send p b.tun)
            ∙ ap (λ ps. put_all D ps (D.outgoing b.tun)) (sym head),
        ap length head
            ∙ ap suc (
                ap (λ r. length (first_packets (client_turns ts) (LR.remaining r))) (sym stdin)
                ∙ count),
      )
  outgoing_and_count (from_tun ∷ ts) b h =
      let b' = bridge_turn R A T from_tun b in
      let (step, h', running) =
        run_turns-step (λ x. x.failure) (bridge_turn R A T) from_tun ts b h in
      let (_, _, tun, stdin, _) = turn-FromTun R A T b running in
      let (out, count) = outgoing_and_count ts b' h' in
      (
        ap (λ x. D.outgoing x.tun) step
            ∙ out
            ∙ ap
                (λ r.
                  put_all D (first_packets (client_turns ts) (LR.remaining r)) (D.outgoing b'.tun))
                stdin
            ∙ ap (put_all D (first_packets (client_turns ts) (LR.remaining b.stdin)))
                (ap D.outgoing tun ∙ D.outgoing-recv 2048 b.tun),
        ap (λ r. length (first_packets (client_turns ts) (LR.remaining r))) (sym stdin) ∙ count,
      )

  -- Each turn of `client_to_tun` that left the tasks running had a packet.
  pub client_turns-first_packets :
      (ts : List Side) (b : Bridge R A T)
      → (bridge R A T ts b).failure ≡ none
      → length (first_packets (client_turns ts) (LR.remaining b.stdin)) ≡ client_turns ts
  client_turns-first_packets ts b h = (outgoing_and_count ts b h).1

module _ (R : AsyncRead) (LR : ReadsBytes R) (A : AsyncWrite) (LA : WritesBytes A) (T : Tun)
    (D : FullDuplex T) where
  -- While the agent runs, its tasks taking turns in any order, stdout has got the frames of the
  -- packets that the device gave, and the device has been sent the packets of stdin's byte stream
  -- in order, one for each turn of the task in question.
  pub bridge-frames :
      (ts : List Side) (b : Bridge R A T)
      → (bridge R A T ts b).failure ≡ none
      → let b' = bridge R A T ts b in
        (LA.written b'.stdout ≡ LA.written b.stdout ++ frames (received T (tun_turns ts) b.tun))
        × (D.outgoing b'.tun
            ≡ put_all D (first_packets (client_turns ts) (LR.remaining b.stdin)) (D.outgoing b.tun))
  bridge-frames ts b h =
      (written-bridge R A LA T D ts b h, (outgoing_and_count R LR A T D ts b h).0)

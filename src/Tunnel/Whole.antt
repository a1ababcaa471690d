-- ===== src/Tunnel/Whole.antt =====
-- Which packets arrive whole: those that fit into the 2048 bytes of the reading buffer.
use x2ssh.Base.{
  ℕ, zero, suc, ◌≤◌, ◌<◌, ◌≡◌, refl, ap, ◌∙◌, List, [], ◌∷◌, map, All, arith, length, take, none,
  Result, ok, err,
}
use mathlib.Core.Path.{ap₂}
use x2ssh.Proto.Stream.{AsyncRead, ReadsBytes}
use x2ssh.Ssh.{Ssh}
use x2ssh.TunRs.{Tun, FitsBuffer, ReadsPackets}
use x2ssh.AgentMain.{client_to_tun}
use x2ssh.Vpn.Forward.{tun_to_agent}
use x2ssh.Tunnel.Received.{take_received, received, send_until_error}
use x2ssh.Tunnel.Upstream.{SendsBytes, upstream}

module _ (T : Tun) (P : ReadsPackets T) where
  -- What the first `n` calls of `recv` give of the packets that wait.
  received-pending :
      (n : ℕ) (t : T.State) (ps : List (List ℕ))
      → P.pending t ≡ ps
      → n ≤ length ps
      → received T n t ≡ map (take 2048) (take n ps)
  unfolding received
  received-pending zero t ps h few = refl
  received-pending (suc n) t [] h few = absurd (omega arith)
  received-pending (suc n) t (p ∷ ps) h few =
      let (given, rest) = P.recv-pending 2048 t p ps h in
      ap (λ r. take_received T r (received T n (T.recv 2048 t).1)) given
      ∙ ap (λ qs. take 2048 p ∷ qs) (received-pending n (T.recv 2048 t).1 ps rest (omega arith))

length-take_received :
    (T : Tun) (r : Result (List ℕ)) (ps : List (List ℕ))
    → length (take_received T r ps) ≤ suc (length ps)
length-take_received T (ok p) ps = omega arith
length-take_received T (err e) ps = omega arith

length-received : (T : Tun) (n : ℕ) (t : T.State) → length (received T n t) ≤ n
unfolding received
length-received T zero t = omega arith
length-received T (suc n) t =
    let rest = received T n (T.recv 2048 t).1 in
    omega
      (arith, length-take_received T (T.recv 2048 t).0 rest, length-received T n (T.recv 2048 t).1)

take_all : (n : ℕ) (p : List ℕ) → length p ≤ n → take n p ≡ p
take_all zero [] h = refl
take_all zero (x ∷ p) h = absurd (omega arith)
take_all (suc n) [] h = refl
take_all (suc n) (x ∷ p) h = ap (λ q. x ∷ q) (take_all n p (omega arith))

-- Packets of at most `mtu` bytes.
abbrev pub Within : ℕ → List ℕ → Type 0
Within mtu p = length p ≤ mtu

whole_packets :
    (mtu : ℕ) (ps : List (List ℕ)) → mtu ≤ 2048 → All (Within mtu) ps → map (take 2048) ps ≡ ps
whole_packets mtu [] h all = refl
whole_packets mtu (p ∷ ps) h all =
    ap₂ (λ q qs. q ∷ qs) (take_all 2048 p (omega (arith, all.0))) (whole_packets mtu ps h all.1)

All-take : (mtu n : ℕ) (ps : List (List ℕ)) → All (Within mtu) ps → All (Within mtu) (take n ps)
All-take mtu zero ps all = tt
All-take mtu (suc n) [] all = tt
All-take mtu (suc n) (p ∷ ps) all = (all.0, All-take mtu n ps all.1)

module _ {W : Type 0} (S : Ssh W) (LS : SendsBytes S) (C : Tun) (F : FitsBuffer C)
    (P : ReadsPackets C) (R : AsyncRead) (LR : ReadsBytes R) (A : Tun) where
  -- Of the packets that wait at the client's device the first `n` were read and sent by the client's
  -- `tun_to_agent`, which still runs. An agent whose stdin holds what was sent hands each of them to
  -- its own device, cut to its first 2048 bytes, in the same order, up to the first that the device
  -- refuses. With an MTU of at most 2048, so that no packet that waits is longer than that, it
  -- hands them on whole.
  pub upstream_whole :
      (n fuel : ℕ) (channel : S.Channel) (c c' : C.State) (w w' : W) (r : R.State) (a : A.State)
      → tun_to_agent S C n channel c w ≡ (none, c', w')
      → LS.sent channel w ≡ []
      → LR.remaining r ≡ LS.sent channel w'
      → n ≤ length (P.pending c)
      → n < fuel
      → ((client_to_tun R A fuel r a).1
          ≡ (send_until_error A (map (take 2048) (take n (P.pending c))) a).1)
        × ((mtu : ℕ)
            → mtu ≤ 2048
            → All (Within mtu) (P.pending c)
            → (client_to_tun R A fuel r a).1 ≡ (send_until_error A (take n (P.pending c)) a).1)
  upstream_whole n fuel channel c c' w w' r a ran fresh same enough more =
      let ps = P.pending c in
      let (handed, _, _) =
        upstream S LS C F R LR A n fuel channel c c' w w' r a ran fresh same
          (omega (arith, length-received C n c)) in
      let cut =
        handed ∙ ap (λ qs. (send_until_error A qs a).1) (received-pending C P n c ps refl enough) in
      (
        cut,
        λ mtu small all.
            cut
            ∙ ap (λ qs. (send_until_error A qs a).1)
                (whole_packets mtu (take n ps) small (All-take mtu n ps all)),
      )

-- ===== src/Vpn/Forward/Buffer.antt =====
-- The buffer of the reader while `agent_to_tun` runs.
use x2ssh.Base.{ℕ, zero, suc, ◌≡◌, subst, none, inl, inr, arith, Result-cases, Option-cases}
use x2ssh.TunRs.{Tun}
use x2ssh.Vpn.Agent.{Reader, recv_packet}
use x2ssh.Vpn.Agent.Buffer.{Holds, Leaves, recv_packet-Leaves}
use x2ssh.Vpn.Forward.{agent_to_tun}

module _ (T : Tun) (most : ℕ) where
  -- The messages of the channel have at most `most` bytes each. Where the buffer holds no more than
  -- that at the start, `agent_to_tun` holds no more at any point between two packets, however many
  -- packets it has received and whatever the device has answered.
  pub agent_to_tun-Holds :
      (fuel : ℕ) (r r' : Reader) (tun tun' : T.State)
      → Holds most (suc most) r
      → agent_to_tun T fuel r tun ≡ (none, r', tun')
      → Holds most (suc most) r'
  unfolding agent_to_tun
  agent_to_tun-Holds zero r r' tun tun' h ran =
      let same : r ≡ r' = cc in subst (Holds most (suc most)) same h
  agent_to_tun-Holds (suc fuel) r r' tun tun' (small, h) ran =
      let left = recv_packet-Leaves most r (small, omega arith) in
      elim (Result-cases (recv_packet r).0) [
        | inr (e, q) ↦ let over' = rw (q, agent_to_tun) at ran in cc
        | inl (o, q) ↦ elim (Option-cases o) [
          | inl closed' ↦ let over' = rw (q, closed', agent_to_tun) at ran in cc
          | inr (p, got) ↦
              let (small', h') : Holds most most (recv_packet r).1 =
                subst (λ x. Leaves most (x, (recv_packet r).1)) (rw got at q) left in
              agent_to_tun-Holds fuel (recv_packet r).1 r' (T.send p tun).1 tun'
                (small', omega arith) (rw (q, got, agent_to_tun) at ran)
        ]
      ]

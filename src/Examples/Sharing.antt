-- ===== src/Examples/Sharing.antt =====
-- Tasks that share a session.
use x2ssh.Base.{ℕ, zero, suc, ◌≡◌, refl, [], ◌∷◌, none, some}
use x2ssh.Net.{v4}
use x2ssh.Retry.Float.{exact}
use x2ssh.Proto.Stream.{vector}
use x2ssh.Transport.Relay.{from_client, open_direct, opened_relay}
use x2ssh.Transport.Sharing.{
  grant, go_on, Task, Shared, waits, relays, forwards, checks, stores, acts,
}
use x2ssh.Transport.Sharing.Exclusion.{Exclusive, acts-Exclusive}
use x2ssh.Transport.Sharing.Blocking.{StandsStill, acts-Silent}
use x2ssh.Examples.World.{server, nets}
use x2ssh.Examples.Forwarding.{chunks, self, busy, start}

-- Two connections, a health check, and a session that was made anew.
abbrev wanted : ℕ → Task exact nets server chunks vector
wanted zero = waits (forwards (v4 10 0 0 5, 80) (8 ∷ 9 ∷ []) [])
wanted (suc zero) = waits (forwards (v4 10 0 0 5, 80) [] [])
wanted (suc (suc zero)) = waits checks
wanted (suc (suc (suc n))) = waits (stores 9)

abbrev waiting : Shared exact nets server chunks vector
waiting = record { guard = none; tasks = wanted; transport = self; world = busy }

nobody_relays : Exclusive exact nets server chunks vector waiting
nobody_relays zero now = elim now [ ]
nobody_relays (suc zero) now = elim now [ ]
nobody_relays (suc (suc zero)) now = elim now [ ]
nobody_relays (suc (suc (suc n))) now = elim now [ ]

abbrev granted : Shared exact nets server chunks vector
granted =
    acts exact nets server chunks vector (grant 0 ∷ grant 1 ∷ go_on 0 from_client ∷ []) waiting

acts-Exclusive_example : granted.guard ≡ some 0
unfolding acts open_direct opened_relay
acts-Exclusive_example =
    acts-Exclusive exact nets server chunks vector (grant 0 ∷ grant 1 ∷ go_on 0 from_client ∷ [])
      waiting nobody_relays 0 tt

-- The first connection copies.
abbrev running : ℕ → Task exact nets server chunks vector
running zero = relays 3 start
running (suc j) = wanted (suc j)

abbrev occupied : Shared exact nets server chunks vector
occupied = record waiting { guard = some 0; tasks = running }

one_relays : Exclusive exact nets server chunks vector occupied
one_relays zero now = refl
one_relays (suc zero) now = elim now [ ]
one_relays (suc (suc zero)) now = elim now [ ]
one_relays (suc (suc (suc n))) now = elim now [ ]

acts-Silent_example : StandsStill exact nets server chunks vector 0 occupied (
    acts exact nets server chunks vector
      (grant 1 ∷ go_on 0 from_client ∷ grant 2 ∷ grant 3 ∷ go_on 0 from_client ∷ [])
      occupied)
acts-Silent_example =
    acts-Silent exact nets server chunks vector 0
      (grant 1 ∷ go_on 0 from_client ∷ grant 2 ∷ grant 3 ∷ go_on 0 from_client ∷ []) occupied
      one_relays refl refl (tt, (tt, (tt, (tt, (tt, tt)))))

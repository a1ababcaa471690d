-- ===== src/TunRs.antt =====
-- The TUN device (tun_rs::AsyncDevice) as both programs use it: a parameter of the model.
use x2ssh.Base.{ℕ, zero, suc, ◌≤◌, ◌≡◌, ap, arith, List, [], ◌∷◌, length, take, Result}
use x2ssh.Base.{ok, err, Exec, foreign}

pub record Tun : Type 1 where
  pub State : Type 0
  -- `recv(&mut buf)`: the bytes put into a buffer of that size.
  pub recv : ℕ → Exec State (List ℕ)
  pub send : List ℕ → Exec State (Unit {0})

-- A packet never overruns the buffer.
pub record FitsBuffer (T : Tun) : Type 0 where
  pub length-recv : (n : ℕ) (t t' : T.State) (p : List ℕ) → T.recv n t ≡ (ok p, t') → length p ≤ n

-- The two directions of a device do not disturb each other: what it receives depends on its
-- incoming side alone, which a send leaves as it is, and the other way round.
pub record FullDuplex (T : Tun) : Type 1 where
  pub Incoming : Type 0
  pub Outgoing : Type 0
  pub incoming : T.State → Incoming
  pub outgoing : T.State → Outgoing
  pub take_in : ℕ → Incoming → Result (List ℕ) × Incoming
  pub put_out : List ℕ → Outgoing → Outgoing
  pub recv-result : (n : ℕ) (t : T.State) → (T.recv n t).0 ≡ (take_in n (incoming t)).0
  pub incoming-recv : (n : ℕ) (t : T.State) → incoming (T.recv n t).1 ≡ (take_in n (incoming t)).1
  pub outgoing-recv : (n : ℕ) (t : T.State) → outgoing (T.recv n t).1 ≡ outgoing t
  pub incoming-send : (p : List ℕ) (t : T.State) → incoming (T.send p t).1 ≡ incoming t
  pub outgoing-send : (p : List ℕ) (t : T.State) → outgoing (T.send p t).1 ≡ put_out p (outgoing t)

-- A device that gives the queued packets, cut to the buffer, and keeps those that it is sent.
abbrev pub QueueState : Type 0
QueueState = List (List ℕ) × List (List ℕ)

abbrev pub queue_recv : ℕ → Exec QueueState (List ℕ)
queue_recv n ([], out) = (err (foreign 1), ([], out))
queue_recv n (p ∷ ps, out) = (ok (take n p), (ps, out))

abbrev pub queue : Tun
queue = record { State = QueueState; recv = queue_recv; send = λ p s. (ok tt, (s.0, p ∷ s.1)) }

length-take-le : (n : ℕ) (p : List ℕ) → length (take n p) ≤ n
length-take-le zero p = omega arith
length-take-le (suc n) [] = omega arith
length-take-le (suc n) (x ∷ p) = omega (arith, length-take-le n p)

pub length-queue_recv :
    (n : ℕ) (t t' : QueueState) (p : List ℕ) → queue_recv n t ≡ (ok p, t') → length p ≤ n
length-queue_recv n ([], out) t' p h = cc
length-queue_recv n (q ∷ ps, out) t' p h = let e : take n q ≡ p = cc in rw e at (length-take-le n q)

pub queue-FitsBuffer : FitsBuffer queue
queue-FitsBuffer = record { length-recv = length-queue_recv }

-- What the system routes to the device waits there, one packet for each `recv`, which gives of it
-- what fits into the buffer and drops the rest.
pub record ReadsPackets (T : Tun) : Type 0 where
  pub pending : T.State → List (List ℕ)
  pub recv-pending :
      (n : ℕ) (t : T.State) (p : List ℕ) (ps : List (List ℕ))
      → pending t ≡ p ∷ ps
      → ((T.recv n t).0 ≡ ok (take n p)) × (pending (T.recv n t).1 ≡ ps)

pub recv-queue :
    (n : ℕ) (t : QueueState) (p : List ℕ) (ps : List (List ℕ))
    → t.0 ≡ p ∷ ps
    → ((queue_recv n t).0 ≡ ok (take n p)) × ((queue_recv n t).1.0 ≡ ps)
recv-queue n ([], out) p ps h = cc
recv-queue n (q ∷ qs, out) p ps h =
    let head : q ≡ p = cc in let tail : qs ≡ ps = cc in (ap (λ x. ok (take n x)) head, tail)

abbrev pub queue-ReadsPackets : ReadsPackets queue
queue-ReadsPackets = record { pending = λ t. t.0; recv-pending = recv-queue }

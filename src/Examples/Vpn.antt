-- ===== src/Examples/Vpn.antt =====
-- The queue of packets as a device whose two directions do not disturb each other.
use x2ssh.Base.{ℕ, ◌≡◌, refl, List, [], ◌∷◌, Result, ok, err, foreign, take}
use x2ssh.TunRs.{queue, QueueState, queue_recv, FullDuplex}

abbrev pub take_queued : ℕ → List (List ℕ) → Result (List ℕ) × List (List ℕ)
take_queued n [] = (err (foreign 1), [])
take_queued n (p ∷ ps) = (ok (take n p), ps)

abbrev pub recv_queued : (n : ℕ) (t : QueueState) → (queue_recv n t).0 ≡ (take_queued n t.0).0
recv_queued n ([], out) = refl
recv_queued n (p ∷ ps, out) = refl

abbrev pub left_queued : (n : ℕ) (t : QueueState) → (queue_recv n t).1.0 ≡ (take_queued n t.0).1
left_queued n ([], out) = refl
left_queued n (p ∷ ps, out) = refl

abbrev pub out_kept : (n : ℕ) (t : QueueState) → (queue_recv n t).1.1 ≡ t.1
out_kept n ([], out) = refl
out_kept n (p ∷ ps, out) = refl

abbrev pub queue-FullDuplex : FullDuplex queue
queue-FullDuplex = record {
  Incoming = List (List ℕ);
  Outgoing = List (List ℕ);
  incoming = λ t. t.0;
  outgoing = λ t. t.1;
  take_in = take_queued;
  put_out = λ p out. p ∷ out;
  recv-result = recv_queued;
  incoming-recv = left_queued;
  outgoing-recv = out_kept;
  incoming-send = λ p t. refl;
  outgoing-send = λ p t. refl;
}

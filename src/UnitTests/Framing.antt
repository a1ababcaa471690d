-- ===== src/UnitTests/Framing.antt =====
-- proto/src/framing.rs: its tests, with a vector to write to and a slice to read from.
use x2ssh.Base.{
  ℕ, zero, suc, ◌<◌, ◌^◌, ◌≡◌, refl, sym, ap, ◌∙◌, List, [], ◌∷◌, Bool, true, ◌&&◌, ◌==◌, ==_iff,
  arith, Str, codes, str_eq, str_eq_self, length, is_empty, replicate, append-nil,
}
use x2ssh.UnitTests.{unwrap}
use x2ssh.Proto.Bytes.{to_be_bytes, from_be_bytes}
use x2ssh.Proto.Stream.{slice, slice-ReadsBytes, vector}
use x2ssh.Proto.Framing.{read_framed, write_framed}
use x2ssh.Proto.RoundTrip.{frame, Fits, read_framed-frame}

-- What is written into an empty vector, and read back from it.
received_is : List ℕ → (List ℕ → Bool) → Bool
received_is packet check =
    let (written, buf) = write_framed vector packet [] in
    unwrap written (λ _. unwrap (read_framed slice buf).0 check)

abbrev hello : Str
hello = codes "Hello, World!"

test_round_trip : Bool
unfolding received_is
test_round_trip = received_is hello (λ received. str_eq received hello)

test_empty_packet : Bool
unfolding received_is
test_empty_packet = received_is [] is_empty

-- The test with a packet of so many zeros.
zeros_come_back : ℕ → Bool
unfolding received_is
zeros_come_back size =
    let packet : List ℕ = replicate size 0 in
    received_is packet (λ received. length received == size && str_eq received packet)

test_large_packet : Bool
unfolding zeros_come_back
test_large_packet = zeros_come_back 65536

abbrev write_each : List (List ℕ) → List ℕ → (List ℕ → Bool) → Bool
write_each [] buf rest = rest buf
write_each (packet ∷ packets) buf rest =
    let (written, buf') = write_framed vector packet buf in
    unwrap written (λ _. write_each packets buf' rest)

abbrev read_each : List (List ℕ) → List ℕ → Bool
read_each [] cursor = true
read_each (expected ∷ packets) cursor =
    let (received, cursor') = read_framed slice cursor in
    unwrap received (λ r. str_eq r expected && read_each packets cursor')

test_multiple_packets : Bool
test_multiple_packets =
    let packets = codes "first" ∷ codes "second" ∷ codes "third" ∷ [] in
    write_each packets [] (read_each packets)

received_is-ok :
    (packet : List ℕ) (check : List ℕ → Bool)
    → Fits packet
    → received_is packet check ≡ check packet
unfolding received_is write_framed
received_is-ok packet check fits =
    ap (λ r. unwrap r check)
      (read_framed-frame slice slice-ReadsBytes packet [] (frame packet) fits
        (sym (append-nil (frame packet)))).0

test_round_trip_passes : test_round_trip ≡ true
unfolding test_round_trip
test_round_trip_passes =
    received_is-ok hello (λ received. str_eq received hello) (omega arith) ∙ str_eq_self hello

test_empty_packet_passes : test_empty_packet ≡ true
unfolding test_empty_packet
test_empty_packet_passes = received_is-ok [] is_empty (omega arith)

length-replicate : (n : ℕ) → let zeros : List ℕ = replicate n 0 in length zeros ≡ n
length-replicate zero = refl
length-replicate (suc n) = omega (arith, length-replicate n)

zeros_come_back-true : (size : ℕ) → size < 2 ^ 32 → zeros_come_back size ≡ true
unfolding zeros_come_back
zeros_come_back-true size small =
    let packet : List ℕ = replicate size 0 in
    let same : (length packet == size) ≡ true = (==_iff _ _).1 (length-replicate size) in
    received_is-ok packet (λ received. length received == size && str_eq received packet)
      (omega (arith, length-replicate size))
    ∙ rw same (str_eq_self packet)

test_large_packet_passes : test_large_packet ≡ true
unfolding test_large_packet
test_large_packet_passes = zeros_come_back-true 65536 (omega arith)

test_multiple_packets_passes : test_multiple_packets ≡ true
unfolding test_multiple_packets write_framed read_framed to_be_bytes from_be_bytes
test_multiple_packets_passes = refl

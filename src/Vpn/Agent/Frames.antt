-- ===== src/Vpn/Agent/Frames.antt =====
-- `recv_packet` on framed streams, and what `send_packet` sends.
use x2ssh.Base.{ℕ, ◌+◌, ◌<◌, ◌≤◌, ◌≡◌, sym, ap, ◌∙◌, arith, subst}
use x2ssh.Base.{List, [], ◌∷◌, ◌++◌, append_assoc, none, some}
use x2ssh.Base.{length, take, drop, le→leb, lt→leb, ok}
use x2ssh.Base.{length-append, take-append, take-append_le, drop-append, lt-or-le, inl, inr}
use x2ssh.Proto.Bytes.{
  as_u32, to_be_bytes, from_be_bytes, from_be_bytes-to_be_bytes, length-to_be_bytes,
}
use x2ssh.Proto.RoundTrip.{frame, Fits}
use mathlib.Core.Path.{ap₂}
use x2ssh.Vpn.Agent.{Reader, recv_packet}
use x2ssh.Vpn.Agent.Receive.{stream, next_packet, Receives, recv_packet-next_packet}

pub next_packet-some :
    (bs : List ℕ) (len : ℕ)
    → from_be_bytes (take 4 bs) ≡ len
    → 4 + len ≤ length bs
    → next_packet bs ≡ some (take len (drop 4 bs), drop (4 + len) bs)
unfolding next_packet
next_packet-some bs len e h = rw (le→leb 4 (length bs) (omega arith), e, le→leb _ _ h)

next_packet-none_short : (bs : List ℕ) → length bs < 4 → next_packet bs ≡ none
unfolding next_packet
next_packet-none_short bs h = rw (lt→leb 4 (length bs) h)

next_packet-none :
    (bs : List ℕ) (len : ℕ)
    → from_be_bytes (take 4 bs) ≡ len
    → 4 ≤ length bs
    → length bs < 4 + len
    → next_packet bs ≡ none
unfolding next_packet
next_packet-none bs len e long h = rw (le→leb 4 (length bs) long, e, lt→leb _ _ h)

module _ (p : List ℕ) (fits : Fits p) where
  abbrev header : List ℕ
  header = to_be_bytes (as_u32 (length p))

  header_len : from_be_bytes header ≡ length p
  header_len = from_be_bytes-to_be_bytes (as_u32 (length p)) (omega arith) ∙ omega arith

  take-header : (bs : List ℕ) → take 4 (header ++ bs) ≡ header
  take-header bs =
      ap (λ n. take n (header ++ bs)) (sym (length-to_be_bytes (as_u32 (length p))))
      ∙ take-append header bs

  drop-header : (bs : List ℕ) → drop 4 (header ++ bs) ≡ bs
  drop-header bs =
      ap (λ n. drop n (header ++ bs)) (sym (length-to_be_bytes (as_u32 (length p))))
      ∙ drop-append header bs

  length-frame : length (frame p) ≡ 4 + length p
  length-frame =
      length-append header p ∙ ap (λ n. n + length p) (length-to_be_bytes (as_u32 (length p)))

  pub next_packet-frame : (rest : List ℕ) → next_packet (frame p ++ rest) ≡ some (p, rest)
  next_packet-frame rest =
      let bs = frame p ++ rest in
      let split : bs ≡ header ++ (p ++ rest) = append_assoc header p rest in
      let len : from_be_bytes (take 4 bs) ≡ length p =
        ap (λ b. from_be_bytes (take 4 b)) split
        ∙ ap from_be_bytes (take-header (p ++ rest))
        ∙ header_len in
      let enough : 4 + length p ≤ length bs =
        omega (arith, length-append (frame p) rest, length-frame) in
      let packet : take (length p) (drop 4 bs) ≡ p =
        ap (λ b. take (length p) (drop 4 b)) split
        ∙ ap (take (length p)) (drop-header (p ++ rest))
        ∙ take-append p rest in
      let left : drop (4 + length p) bs ≡ rest =
        ap (λ n. drop n bs) (sym length-frame) ∙ drop-append (frame p) rest in
      next_packet-some bs (length p) len enough ∙ ap₂ (λ a b. some (a, b)) packet left

  pub next_packet-cut :
      (front back : List ℕ) (x : ℕ) → frame p ≡ front ++ (x ∷ back) → next_packet front ≡ none
  next_packet-cut front back x h =
      let total = length-append front (x ∷ back) in
      let whole : length front < 4 + length p = omega (arith, ap length h, total, length-frame) in
      elim (lt-or-le (length front) 4) [
        | inl short ↦ next_packet-none_short front short
        | inr long ↦
            let head : take 4 front ≡ header =
              sym (take-append_le 4 front (x ∷ back) long) ∙ ap (take 4) (sym h) ∙ take-header p in
            next_packet-none front (length p) (ap from_be_bytes head ∙ header_len) long whole
      ]

  pub recv_packet-frame :
      (rest : List ℕ) (r : Reader)
      → stream r ≡ frame p ++ rest
      → ((recv_packet r).0 ≡ ok (some p)) × (stream (recv_packet r).1 ≡ rest)
  recv_packet-frame rest r h =
      let got : Receives (stream r) (some (p, rest)) (recv_packet r) =
        subst (λ o. Receives (stream r) o (recv_packet r))
          (ap next_packet h ∙ next_packet-frame rest) (recv_packet-next_packet r) in
      (got.0, got.1)

  -- While the stream ends inside a frame no packet is given.
  recv_packet_partial :
      (front back : List ℕ) (x : ℕ) (r : Reader)
      → frame p ≡ front ++ (x ∷ back)
      → stream r ≡ front
      → ((recv_packet r).0 ≡ ok none) × ((recv_packet r).1.buffer ≡ front)
  recv_packet_partial front back x r h hs =
      let got : Receives (stream r) none (recv_packet r) =
        subst (λ o. Receives (stream r) o (recv_packet r))
          (ap next_packet hs ∙ next_packet-cut front back x h) (recv_packet-next_packet r) in
      (got.0, got.1 ∙ hs)

pub recv_packet_empty : (r : Reader) → stream r ≡ [] → (recv_packet r).0 ≡ ok none
unfolding next_packet
recv_packet_empty r h =
    let got : Receives (stream r) none (recv_packet r) =
      subst (λ o. Receives (stream r) o (recv_packet r)) (ap next_packet h)
        (recv_packet-next_packet r) in
    got.0

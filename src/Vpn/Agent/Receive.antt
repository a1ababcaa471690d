-- ===== src/Vpn/Agent/Receive.antt =====
-- `recv_packet` against a parser of the byte stream: how the channel cuts the stream into
-- messages does not matter.
use x2ssh.Base.{ℕ, ◌+◌, ◌≤◌, ◌<◌, ◌≡◌, refl, sym, ap, ◌∙◌, inl, inr, arith}
use x2ssh.Base.{List, [], ◌∷◌, ◌++◌, append-nil, append_assoc, Option, none, some}
use x2ssh.Base.{length, take, drop, leb, if◌then◌else◌, Bool-cases, Result, ok}
use x2ssh.Base.{
  leb→le, leb→lt, le→leb, lt→leb, subst, length-append, take-append_le, drop-append_le,
}
use x2ssh.Base.{length-drop}
use x2ssh.Proto.Bytes.{from_be_bytes}
use x2ssh.Ssh.{ChannelMsg, data_msg, extended_data, exit_status, eof, other}
use x2ssh.Vpn.Agent.{Reader, Filled, enough, closed, fill, extract, with_header, recv_packet}

-- The bytes that the channel still delivers.
abbrev pub payload : List ChannelMsg → List ℕ
payload [] = []
payload (data_msg bs ∷ ms) = bs ++ payload ms
payload (eof ∷ ms) = []
payload (extended_data bs n ∷ ms) = payload ms
payload (exit_status n ∷ ms) = payload ms
payload (other ∷ ms) = payload ms

abbrev pub stream : Reader → List ℕ
stream r = r.buffer ++ payload r.inbox

-- What a loop promises: all the bytes are still there, and it is closed only if they are too few.
abbrev Fill : ℕ → List ℕ → Filled → Type 0
Fill need bytes (enough r) = (stream r ≡ bytes) × (need ≤ length r.buffer)
Fill need bytes (closed r) = (r.buffer ≡ bytes) × (length bytes < need)

module _ (need : ℕ) (bytes : List ℕ) where
  Fill-if :
      (b : ℕ) (x y : Filled)
      → (need ≤ b → Fill need bytes x)
      → (b < need → Fill need bytes y)
      → Fill need bytes (if leb need b then x else y)
  Fill-if b x y hx hy = elim (Bool-cases (leb need b)) [
    | inl yes' ↦ rw yes' (hx (leb→le need b yes'))
    | inr no' ↦ rw no' (hy (leb→lt need b no'))
  ]

fill-Fill :
    (need : ℕ) (ms : List ChannelMsg) (buffer : List ℕ)
    → Fill need (buffer ++ payload ms) (fill need ms buffer)
unfolding fill
fill-Fill need [] buffer =
    Fill-if need _ (length buffer) _ _ (λ h. (refl, h))
      (λ h. (sym (append-nil buffer), rw append-nil h))
fill-Fill need (data_msg bs ∷ ms) buffer =
    Fill-if need _ (length buffer) _ _ (λ h. (refl, h))
      (λ _. rw append_assoc at (fill-Fill need ms (buffer ++ bs)))
fill-Fill need (eof ∷ ms) buffer =
    Fill-if need _ (length buffer) _ _ (λ h. (refl, h))
      (λ h. (sym (append-nil buffer), rw append-nil h))
fill-Fill need (extended_data bs n ∷ ms) buffer =
    Fill-if need _ (length buffer) _ _ (λ h. (refl, h)) (λ _. fill-Fill need ms buffer)
fill-Fill need (exit_status n ∷ ms) buffer =
    Fill-if need _ (length buffer) _ _ (λ h. (refl, h)) (λ _. fill-Fill need ms buffer)
fill-Fill need (other ∷ ms) buffer =
    Fill-if need _ (length buffer) _ _ (λ h. (refl, h)) (λ _. fill-Fill need ms buffer)

-- The first packet of a byte stream and the bytes behind it, if the stream holds all of it.
abbrev cut : ℕ → List ℕ → Option (List ℕ × List ℕ)
cut len bytes =
    if leb (4 + len) (length bytes)
    then some (take len (drop 4 bytes), drop (4 + len) bytes)
    else none

unfoldable pub next_packet : List ℕ → Option (List ℕ × List ℕ)
next_packet bytes = if leb 4 (length bytes) then cut (from_be_bytes (take 4 bytes)) bytes else none

-- What `recv_packet` does when the stream begins as `next_packet` says. Without a whole packet it
-- returns `Ok(None)`, and the bytes that came wait in the buffer.
abbrev pub Receives : List ℕ → Option (List ℕ × List ℕ) → Result (Option (List ℕ)) × Reader → Type 0
Receives bytes none (res, r) = (res ≡ ok none) × (r.buffer ≡ bytes)
Receives bytes (some (p, rest)) (res, r) = (res ≡ ok (some p)) × (stream r ≡ rest)

extract-Receives :
    (len : ℕ) (bytes : List ℕ) (f : Filled)
    → Fill (4 + len) bytes f
    → Receives bytes (cut len bytes) (extract len f)
unfolding extract
extract-Receives len bytes (enough r) (same, h) =
    let more = payload r.inbox in
    let fits : 4 + len ≤ length (stream r) = omega (arith, length-append r.buffer more) in
    let packet : take len (drop 4 (stream r)) ≡ take len (drop 4 r.buffer) =
      ap (take len) (drop-append_le 4 r.buffer more (omega arith))
      ∙ take-append_le len (drop 4 r.buffer) more (omega (arith, length-drop 4 r.buffer)) in
    subst (λ b. Receives b (cut len b) (extract len (enough r))) same
      (rw (le→leb _ _ fits)
        (ap (λ b. ok (some b)) (sym packet), sym (drop-append_le (4 + len) r.buffer more h)))
extract-Receives len bytes (closed r) (same, h) =
    rw (lt→leb (4 + len) (length bytes) h) (refl, same)

with_header-Receives :
    (bytes : List ℕ) (f : Filled)
    → Fill 4 bytes f
    → Receives bytes (next_packet bytes) (with_header f)
unfolding with_header next_packet
with_header-Receives bytes (enough r) (same, h) =
    let more = payload r.inbox in
    let long : 4 ≤ length (stream r) = omega (arith, length-append r.buffer more) in
    let header : take 4 (stream r) ≡ take 4 r.buffer = take-append_le 4 r.buffer more h in
    let len = from_be_bytes (take 4 r.buffer) in
    subst (λ b. Receives b (next_packet b) (with_header (enough r))) same
      (rw (le→leb 4 _ long, header)
        (extract-Receives len (stream r) _ (fill-Fill (4 + len) r.inbox r.buffer)))
with_header-Receives bytes (closed r) (same, h) = rw (lt→leb 4 (length bytes) h) (refl, same)

-- `recv_packet` reads exactly what the byte stream holds: if it begins with a whole frame, its
-- packet, leaving the bytes behind it; if not, `Ok(None)` with all the bytes kept in the buffer.
pub recv_packet-next_packet :
    (r : Reader) → Receives (stream r) (next_packet (stream r)) (recv_packet r)
unfolding recv_packet
recv_packet-next_packet r = with_header-Receives (stream r) _ (fill-Fill 4 r.inbox r.buffer)

-- ===== src/Vpn/Agent/Buffer.antt =====
-- How many bytes `recv_packet` leaves in the buffer beside the reader.
use x2ssh.Base.{
  ℕ, ◌+◌, ◌≤◌, ◌<◌, arith, List, [], ◌∷◌, ◌++◌, All, Option, none, some, length, leb, length-append,
  length-drop, leb→le, leb→lt, Bool-cases, inl, inr, if◌then◌else◌, Result, ok, err,
}
use x2ssh.Ssh.{ChannelMsg, data_msg, extended_data, exit_status, eof, other}
use x2ssh.Vpn.Agent.{Reader, Filled, enough, closed, fill, extract, with_header, recv_packet}

-- A message with at most that many bytes of data.
abbrev pub AtMost : ℕ → ChannelMsg → Type 0
AtMost most (data_msg bs) = length bs ≤ most
AtMost most (extended_data bs n) = Unit {0}
AtMost most (exit_status n) = Unit {0}
AtMost most eof = Unit {0}
AtMost most other = Unit {0}

-- Messages of that size are to come, and the buffer holds less than a number of bytes.
abbrev pub Holds : ℕ → ℕ → Reader → Type 0
Holds most size r = All (AtMost most) r.inbox × (length r.buffer < size)

-- A loop that waits for `need` bytes stops with less than one more message.
abbrev Stops : ℕ → ℕ → Filled → Type 0
Stops most need (enough r) = Holds most (need + most) r × (need ≤ length r.buffer)
Stops most need (closed r) = Holds most need r

module _ (most need : ℕ) where
  Stops-if :
      (b : ℕ) (x y : Filled)
      → (need ≤ b → Stops most need x)
      → (b < need → Stops most need y)
      → Stops most need (if leb need b then x else y)
  Stops-if b x y hx hy = elim (Bool-cases (leb need b)) [
    | inl yes' ↦ rw yes' (hx (leb→le need b yes'))
    | inr no' ↦ rw no' (hy (leb→lt need b no'))
  ]

  fill-Stops :
      (ms : List ChannelMsg) (buffer : List ℕ)
      → All (AtMost most) ms
      → length buffer < need + most
      → Stops most need (fill need ms buffer)
  unfolding fill
  fill-Stops [] buffer small h = Stops-if (length buffer) _ _ (λ e. ((tt, h), e)) (λ l. (tt, l))
  fill-Stops (data_msg bs ∷ ms) buffer small h =
      Stops-if (length buffer) _ _ (λ e. ((small, h), e))
        (λ l.
          fill-Stops ms (buffer ++ bs) small.1 (omega (arith, length-append buffer bs, small.0)))
  fill-Stops (eof ∷ ms) buffer small h =
      Stops-if (length buffer) _ _ (λ e. ((small, h), e)) (λ l. (small.1, l))
  fill-Stops (extended_data bs n ∷ ms) buffer small h =
      Stops-if (length buffer) _ _ (λ e. ((small, h), e)) (λ l. fill-Stops ms buffer small.1 h)
  fill-Stops (exit_status n ∷ ms) buffer small h =
      Stops-if (length buffer) _ _ (λ e. ((small, h), e)) (λ l. fill-Stops ms buffer small.1 h)
  fill-Stops (other ∷ ms) buffer small h =
      Stops-if (length buffer) _ _ (λ e. ((small, h), e)) (λ l. fill-Stops ms buffer small.1 h)

-- What `recv_packet` leaves when it returns a packet: less than one message.
abbrev pub Leaves : ℕ → Result (Option (List ℕ)) × Reader → Type 0
Leaves most (ok (some p), r) = Holds most most r
Leaves most (ok none, r) = Unit {0}
Leaves most (err e, r) = Unit {0}

module _ (most : ℕ) where
  extract-Leaves : (len : ℕ) (f : Filled) → Stops most (4 + len) f → Leaves most (extract len f)
  unfolding extract
  extract-Leaves len (closed r) h = tt
  extract-Leaves len (enough r) ((small, h), e) =
      (small, omega (arith, length-drop (4 + len) r.buffer))

  with_header-Leaves : (f : Filled) → Stops most 4 f → Leaves most (with_header f)
  unfolding with_header
  with_header-Leaves (closed r) h = tt
  with_header-Leaves (enough r) ((small, h), e) =
      extract-Leaves _ _ (fill-Stops most _ r.inbox r.buffer small (omega arith))

  pub recv_packet-Leaves : (r : Reader) → Holds most (4 + most) r → Leaves most (recv_packet r)
  unfolding recv_packet
  recv_packet-Leaves r (small, h) =
      with_header-Leaves _ (fill-Stops most 4 r.inbox r.buffer small h)

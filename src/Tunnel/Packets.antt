-- ===== src/Tunnel/Packets.antt =====
-- The packets that a byte stream holds, one frame after the other.
use x2ssh.Base.{ℕ, zero, suc, ◌≡◌, refl, sym, ap, ◌∙◌, List, [], ◌∷◌, ◌++◌, All, arith}
use x2ssh.Base.{◌⊎◌, inl, inr, none, some, length, take, drop, ◌+◌, ◌≤◌, ok}
use x2ssh.Base.{length-drop, drop-drop, lt-or-le, >>=-eq-ok}
use mathlib.Core.Path.{ap₂}
use x2ssh.Proto.Stream.{AsyncRead, ReadsBytes}
use x2ssh.Proto.Framing.{read_framed}
use x2ssh.Proto.Bytes.{from_be_bytes}
use x2ssh.Proto.RoundTrip.{frame, frames, Fits}
use x2ssh.Vpn.Agent.Receive.{next_packet}
use x2ssh.Vpn.Agent.Frames.{next_packet-frame, next_packet-cut, next_packet-some}

-- The first packets of a byte stream, fewer if it ends before.
unfoldable pub first_packets : ℕ → List ℕ → List (List ℕ)
first_packets zero bytes = []
first_packets (suc n) bytes = elim (next_packet bytes) [
  | none ↦ []
  | some (p, rest) ↦ p ∷ first_packets n rest
]

pub first_packets-suc :
    (n : ℕ) (bytes p rest : List ℕ)
    → next_packet bytes ≡ some (p, rest)
    → first_packets (suc n) bytes ≡ p ∷ first_packets n rest
unfolding first_packets
first_packets-suc n bytes p rest h = rw (h, first_packets) refl

first_packets-none :
    (n : ℕ) (bytes : List ℕ) → next_packet bytes ≡ none → first_packets (suc n) bytes ≡ []
unfolding first_packets
first_packets-none n bytes h = rw (h, first_packets)

-- Two ways to write a list as two parts: the first part of one begins with that of the other.
split_both :
    (s t u v : List ℕ)
    → s ++ t ≡ u ++ v
    → ((rest : List ℕ) × (s ≡ u ++ rest) × (rest ++ t ≡ v))
      ⊎ ((x : ℕ) × (back : List ℕ) × (u ≡ s ++ (x ∷ back)))
split_both s t [] v h = inl (s, refl, h)
split_both [] t (x ∷ u) v h = inr (x, u, refl)
split_both (y ∷ s) t (x ∷ u) v h =
    let head : y ≡ x = cc in
    let tail : s ++ t ≡ u ++ v = cc in
    elim (split_both s t u v tail) [
      | inl (rest, e, e') ↦ let whole : y ∷ s ≡ x ∷ (u ++ rest) = cc in inl (rest, whole, e')
      | inr (z, back, e) ↦ let whole : x ∷ u ≡ y ∷ (s ++ (z ∷ back)) = cc in inr (z, back, whole)
    ]

next_packet_empty : next_packet [] ≡ none
unfolding next_packet
next_packet_empty = refl

-- The packets of the part of a framed stream that has come are the first ones that were framed.
pub first_packets-take :
    (n : ℕ) (ps : List (List ℕ)) (s later : List ℕ)
    → All Fits ps
    → s ++ later ≡ frames ps
    → length (first_packets n s) ≡ n
    → first_packets n s ≡ take n ps
unfolding first_packets
first_packets-take zero ps s later fits h count = refl
first_packets-take (suc n) [] [] later fits h count =
    let e = first_packets-none n [] next_packet_empty in
    let never = ap length e in absurd (omega arith)
first_packets-take (suc n) [] (x ∷ s) later fits h count = cc
first_packets-take (suc n) (p ∷ ps) s later fits h count =
    elim (split_both s later (frame p) (frames ps) h) [
      | inl (rest, e, e') ↦
          let step =
            first_packets-suc n s p rest (ap next_packet e ∙ next_packet-frame p fits.0 rest) in
          let left : length (first_packets n rest) ≡ n =
            let counted = ap length step in omega arith in
          step ∙ ap (λ qs. p ∷ qs) (first_packets-take n ps rest later fits.1 e' left)
      | inr (x, back, e) ↦
          let short = first_packets-none n s (next_packet-cut p fits.0 s back x e) in
          let never = ap length short in absurd (omega arith)
    ]

module _ (R : AsyncRead) (L : ReadsBytes R) where
  -- A `read_exact` that succeeded has read what the stream began with.
  read_exact-inv :
      (n : ℕ) (s s' : R.State) (bs : List ℕ)
      → R.read_exact n s ≡ (ok bs, s')
      → (n ≤ length (L.remaining s))
        × (bs ≡ take n (L.remaining s))
        × (L.remaining s' ≡ drop n (L.remaining s))
  read_exact-inv n s s' bs h = elim (lt-or-le (length (L.remaining s)) n) [
    | inl short ↦ let (e, t, q) = L.read_exact-eof n s short in let never = sym h ∙ q in cc
    | inr enough ↦
        let (t, q, r) = L.read_exact-ok n s enough in
        let both = sym h ∙ q in
        let bytes : bs ≡ take n (L.remaining s) = cc in
        let state : s' ≡ t = cc in (enough, bytes, ap L.remaining state ∙ r)
  ]

  -- A `read_framed` that succeeded has read the first packet of the stream.
  pub read_framed-next_packet :
      (s s' : R.State) (p : List ℕ)
      → read_framed R s ≡ (ok p, s')
      → next_packet (L.remaining s) ≡ some (p, L.remaining s')
  unfolding read_framed
  read_framed-next_packet s s' p h =
      let (header, s₁, e₁, h₁) = >>=-eq-ok (R.read_exact 4) _ s h in
      let (long, is_header, r₁) = read_exact-inv 4 s s₁ header e₁ in
      let len = from_be_bytes header in
      let (body, s₂, e₂, h₂) = >>=-eq-ok (R.read_exact len) _ s₁ h₁ in
      let (enough, is_body, r₂) = read_exact-inv len s₁ s₂ body e₂ in
      let packet : body ≡ p = cc in
      let state : s₂ ≡ s' = cc in
      let whole : 4 + len ≤ length (L.remaining s) =
        omega (arith, ap length r₁, length-drop 4 (L.remaining s)) in
      next_packet-some (L.remaining s) len (ap from_be_bytes (sym is_header)) whole
      ∙ ap₂ (λ a b. some (a, b)) (sym (sym packet ∙ is_body ∙ ap (take len) r₁))
          (sym
            (ap L.remaining (sym state) ∙ r₂ ∙ ap (drop len) r₁ ∙ drop-drop len 4 (L.remaining s)))

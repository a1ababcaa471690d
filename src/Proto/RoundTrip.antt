-- ===== src/Proto/RoundTrip.antt =====
-- What one side frames the other side reads back.
use x2ssh.Base.{ℕ, suc, ◌+◌, ◌^◌, ◌≤◌, ◌<◌, ◌≡◌, sym, ap, ◌∙◌, inl, inr}
use x2ssh.Base.{List, [], ◌∷◌, ◌++◌, append_assoc, arith, lt-or-le}
use x2ssh.Base.{
  length, take, drop, length-append, take-append, take-append_le, drop-append, length-drop,
}
use x2ssh.Base.{Error, ok, err, >>=-eq-ok, >>=-ok, >>=-err}
use x2ssh.Proto.Bytes.{
  as_u32, to_be_bytes, from_be_bytes, from_be_bytes-to_be_bytes, length-to_be_bytes,
}
use x2ssh.Proto.Stream.{AsyncRead, ReadsBytes, AsyncWrite, WritesBytes}
use x2ssh.Proto.Framing.{read_framed, write_framed}

-- A packet on the wire.
abbrev pub frame : List ℕ → List ℕ
frame p = to_be_bytes (as_u32 (length p)) ++ p

abbrev pub frames : List (List ℕ) → List ℕ
frames [] = []
frames (p ∷ ps) = frame p ++ frames ps

abbrev pub Fits : List ℕ → Type 0
Fits p = length p < 2 ^ 32

module _ (W : AsyncWrite) (L : WritesBytes W) where
  pub written-write_framed :
      (p : List ℕ) (s s' : W.State)
      → write_framed W p s ≡ (ok tt, s')
      → L.written s' ≡ L.written s ++ frame p
  unfolding write_framed
  written-write_framed p s s' h =
      let (_, s₁, e₁, h₁) = >>=-eq-ok (W.write_all (to_be_bytes (as_u32 (length p)))) _ s h in
      let (_, s₂, e₂, h₂) = >>=-eq-ok (W.write_all p) _ s₁ h₁ in
      let (_, s₃, e₃, h₃) = >>=-eq-ok W.flush _ s₂ h₂ in
      let same : s₃ ≡ s' = cc in
      let w₁ = L.write_all-ok _ s s₁ e₁ in
      let w₂ = L.write_all-ok _ s₁ s₂ e₂ in
      let w₃ = L.flush-ok s₂ s₃ e₃ in
      ap L.written (sym same) ∙ w₃ ∙ w₂ ∙ ap (λ t. t ++ p) w₁ ∙ append_assoc (L.written s) _ p

module _ (R : AsyncRead) (L : ReadsBytes R) where
  -- One `read_exact` on a stream that begins with `front`.
  read_front :
      (front rest : List ℕ) (s : R.State)
      → L.remaining s ≡ front ++ rest
      → (s' : R.State) × (R.read_exact (length front) s ≡ (ok front, s')) × (L.remaining s' ≡ rest)
  read_front front rest s h =
      let enough : length front ≤ length (L.remaining s) =
        rw (h, length-append front rest) (omega arith) in
      let (s', e, r) = L.read_exact-ok (length front) s enough in
      (
        s',
        e ∙ ap (λ t. (ok t, s')) (ap (take (length front)) h ∙ take-append front rest),
        r ∙ ap (drop (length front)) h ∙ drop-append front rest,
      )

  pub read_framed-frame :
      (p rest : List ℕ) (s : R.State)
      → Fits p
      → L.remaining s ≡ frame p ++ rest
      → ((read_framed R s).0 ≡ ok p) × (L.remaining (read_framed R s).1 ≡ rest)
  unfolding read_framed
  read_framed-frame p rest s fits h =
      let header = to_be_bytes (as_u32 (length p)) in
      let (s₁, e₁, r₁) = read_front header (p ++ rest) s (h ∙ append_assoc header p rest) in
      let e₁' : R.read_exact 4 s ≡ (ok header, s₁) = rw length-to_be_bytes at e₁ in
      let (s₂, e₂, r₂) = read_front p rest s₁ r₁ in
      let len : from_be_bytes header ≡ length p =
        from_be_bytes-to_be_bytes (as_u32 (length p)) (omega arith) ∙ omega arith in
      let run : read_framed R s ≡ (ok p, s₂) = rw (e₁', len, e₂) in
      (ap (λ x. x.0) run, ap (λ x. L.remaining x.1) run ∙ r₂)

  -- A stream that ends inside a frame makes `read_framed` fail: no packet is made of a part.
  pub read_framed_truncated :
      (p front back : List ℕ) (x : ℕ) (s : R.State)
      → Fits p
      → frame p ≡ front ++ (x ∷ back)
      → L.remaining s ≡ front
      → (e : Error) × ((read_framed R s).0 ≡ err e)
  unfolding read_framed
  read_framed_truncated p front back x s fits h hs = elim (lt-or-le (length front) 4) [
    | inl short ↦
        let (e, s', q) = L.read_exact-eof 4 s (rw hs short) in
        (e, ap (λ x. x.0) (>>=-err (R.read_exact 4) _ s q))
    | inr long ↦
        let header = to_be_bytes (as_u32 (length p)) in
        let (s₁, q₁, r₁) = L.read_exact-ok 4 s (rw hs long) in
        let is_header : take 4 (L.remaining s) ≡ header =
          ap (take 4) hs
          ∙ sym (take-append_le 4 front (x ∷ back) long)
          ∙ ap (take 4) (sym h)
          ∙ ap (λ n. take n (frame p)) (sym (length-to_be_bytes (as_u32 (length p))))
          ∙ take-append header p in
        let len : from_be_bytes (take 4 (L.remaining s)) ≡ length p =
          ap from_be_bytes is_header
          ∙ from_be_bytes-to_be_bytes (as_u32 (length p)) (omega arith)
          ∙ omega arith in
        let total : 4 + length p ≡ length front + suc (length back) = omega (
          arith,
          ap length h,
          length-append header p,
          length-append front (x ∷ back),
          length-to_be_bytes (as_u32 (length p)),
        ) in
        let left : length (L.remaining s₁) < length p =
          rw (r₁, hs) (omega (arith, length-drop 4 front)) in
        let (e, s', q₂) =
          L.read_exact-eof (from_be_bytes (take 4 (L.remaining s))) s₁ (rw len left) in
        (e, ap (λ x. x.0) (>>=-ok (R.read_exact 4) _ s q₁ ∙ >>=-err (R.read_exact _) _ s₁ q₂))
  ]

  -- At the end of the stream `read_framed` fails.
  pub read_framed_eof :
      (s : R.State) → L.remaining s ≡ [] → (e : Error) × ((read_framed R s).0 ≡ err e)
  unfolding read_framed
  read_framed_eof s h =
      let (e, s', q) = L.read_exact-eof 4 s (rw h (omega arith)) in
      (e, ap (λ x. x.0) (>>=-err (R.read_exact 4) _ s q))

module _ (W : AsyncWrite) (LW : WritesBytes W) (R : AsyncRead) (LR : ReadsBytes R) where
  -- A packet of fewer than 2^32 bytes that is written to a fresh stream is read back as it was,
  -- and the bytes that follow it are left for the next read.
  pub read_framed-write_framed :
      (p rest : List ℕ) (w w' : W.State) (r : R.State)
      → Fits p
      → LW.written w ≡ []
      → write_framed W p w ≡ (ok tt, w')
      → LR.remaining r ≡ LW.written w' ++ rest
      → ((read_framed R r).0 ≡ ok p) × (LR.remaining (read_framed R r).1 ≡ rest)
  read_framed-write_framed p rest w w' r fits fresh sent same =
      read_framed-frame R LR p rest r fits (
        same
        ∙ ap (λ t. t ++ rest)
            (written-write_framed W LW p w w' sent ∙ ap (λ t. t ++ frame p) fresh))

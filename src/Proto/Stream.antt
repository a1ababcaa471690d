-- ===== src/Proto/Stream.antt =====
-- The byte streams that the framing reads and writes. `AsyncRead` and `AsyncWrite` are tokio's:
-- their operations are parameters, with the documented behaviour as laws.
use x2ssh.Base.{ℕ, ◌≤◌, ◌<◌, ◌≡◌, refl, List, [], ◌++◌, arith, length, take, drop, leb}
use x2ssh.Base.{Error, Result, foreign, ok, err, Exec, if◌then◌else◌}

pub record AsyncRead : Type 1 where
  pub State : Type 0
  pub read_exact : ℕ → Exec State (List ℕ)

-- `read_exact` fills the whole buffer with the next bytes, or fails when the stream ends before.
pub record ReadsBytes (R : AsyncRead) : Type 0 where
  pub remaining : R.State → List ℕ
  pub read_exact-ok :
      (n : ℕ) (s : R.State)
      → n ≤ length (remaining s)
      → (s' : R.State) × (R.read_exact n s ≡ (ok (take n (remaining s)), s'))
        × (remaining s' ≡ drop n (remaining s))
  pub read_exact-eof :
      (n : ℕ) (s : R.State)
      → length (remaining s) < n
      → (e : Error) × (s' : R.State) × (R.read_exact n s ≡ (err e, s'))

pub record AsyncWrite : Type 1 where
  pub State : Type 0
  pub write_all : List ℕ → Exec State (Unit {0})
  pub flush : Exec State (Unit {0})

-- A write that succeeds has appended its bytes, and a flush adds nothing.
pub record WritesBytes (W : AsyncWrite) : Type 0 where
  pub written : W.State → List ℕ
  pub write_all-ok :
      (bs : List ℕ) (s s' : W.State) → W.write_all bs s ≡ (ok tt, s') → written s' ≡ written s ++ bs
  pub flush-ok : (s s' : W.State) → W.flush s ≡ (ok tt, s') → written s' ≡ written s

-- A byte slice as a reader, and a growing vector as a writer.
abbrev pub slice : AsyncRead
slice = record {
  State = List ℕ;
  read_exact = λ n s. if leb n (length s) then (ok (take n s), drop n s) else (err (foreign 0), []);
}

pub slice_ok :
    (n : ℕ) (s : List ℕ)
    → n ≤ length s
    → (s' : List ℕ) × (slice.read_exact n s ≡ (ok (take n s), s')) × (s' ≡ drop n s)
slice_ok n s h = (drop n s, ground arith, refl)

pub slice_eof :
    (n : ℕ) (s : List ℕ)
    → length s < n
    → (e : Error) × (s' : List ℕ) × (slice.read_exact n s ≡ (err e, s'))
slice_eof n s h = (foreign 0, [], ground arith)

abbrev pub slice-ReadsBytes : ReadsBytes slice
slice-ReadsBytes = record {
  remaining = λ s. s;
  read_exact-ok = slice_ok;
  read_exact-eof = slice_eof;
}

abbrev pub vector : AsyncWrite
vector = record { State = List ℕ; write_all = λ bs s. (ok tt, s ++ bs); flush = λ s. (ok tt, s) }

pub vector_write :
    (bs s s' : List ℕ)
    → ◌≡◌ {A = Result (Unit {0}) × List ℕ} (ok tt, s ++ bs) (ok tt, s')
    → s' ≡ s ++ bs
vector_write bs s s' h = cc

pub vector_flush :
    (s s' : List ℕ) → ◌≡◌ {A = Result (Unit {0}) × List ℕ} (ok tt, s) (ok tt, s') → s' ≡ s
vector_flush s s' h = cc

abbrev pub vector-WritesBytes : WritesBytes vector
vector-WritesBytes = record {
  written = λ s. s;
  write_all-ok = vector_write;
  flush-ok = vector_flush;
}

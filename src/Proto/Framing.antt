-- ===== src/Proto/Framing.antt =====
-- proto/src/framing.rs: `read_framed` and `write_framed`.
use x2ssh.Base.{ℕ, List, length, Exec, pure, ◌>>=◌, ◌>>◌}
use x2ssh.Proto.Bytes.{as_u32, to_be_bytes, from_be_bytes}
use x2ssh.Proto.Stream.{AsyncRead, AsyncWrite}

-- On a 64-bit target the length read is the same as a usize.
unfoldable pub read_framed : (R : AsyncRead) → Exec R.State (List ℕ)
read_framed R = do
  len_buf ← R.read_exact 4
  let len = from_be_bytes len_buf
  packet ← R.read_exact len
  pure packet

unfoldable pub write_framed : (W : AsyncWrite) → List ℕ → Exec W.State (Unit {0})
write_framed W packet = do
  let len = to_be_bytes (as_u32 (length packet))
  W.write_all len
  W.write_all packet
  W.flush
  pure tt

-- ===== src/Vpn/Agent.antt =====
-- x2ssh/src/vpn/agent.rs: the channel to the agent, its two directions.
pub mod Receive
pub mod Frames
pub mod Buffer
use x2ssh.Base.{ℕ, ◌+◌, List, [], ◌∷◌, ◌++◌, Bool, true, false, Option, none, some}
use x2ssh.Base.{length, take, drop, leb, if◌then◌else◌}
use x2ssh.Base.{Result, ok, Exec, pure, ◌>>=◌, ◌>>◌}
use x2ssh.Proto.Bytes.{as_u32, to_be_bytes, from_be_bytes}
use x2ssh.Ssh.{ChannelMsg, data_msg, extended_data, exit_status, eof, other, Ssh}

-- The reader half and the buffer beside it.
pub record Reader : Type 0 where
  pub inbox : List ChannelMsg
  pub buffer : List ℕ

-- How a loop ended: the buffer is long enough, or the function returned `Ok(None)`.
pub data Filled : Type 0 where
  enough : Reader → Filled
  closed : Reader → Filled

-- `while buffer.len() < need { match reader.wait().await { … } }`
unfoldable pub fill : ℕ → List ChannelMsg → List ℕ → Filled
fill need [] buffer =
    let r : Reader = record { inbox = []; buffer = buffer } in
    if leb need (length buffer) then enough r else closed r
fill need (m ∷ ms) buffer =
    let r : Reader = record { inbox = m ∷ ms; buffer = buffer } in
    let on_data = λ (bs : List ℕ). fill need ms (buffer ++ bs) in
    let on_other = fill need ms buffer in
    if leb need (length buffer) then enough r else elim m [
      | data_msg bs ↦ on_data bs
      | eof ↦ closed (record { inbox = ms; buffer = buffer })
      | _ ↦ on_other
    ]

-- The packet is cut out, and its frame leaves the buffer.
extract : ℕ → Filled → Result (Option (List ℕ)) × Reader
extract len (closed r) = (ok none, r)
extract len (enough r) =
    (ok (some (take len (drop 4 r.buffer))), record r { buffer = drop (4 + len) r.buffer })

with_header : Filled → Result (Option (List ℕ)) × Reader
unfolding extract
with_header (closed r) = (ok none, r)
with_header (enough r) =
    let len = from_be_bytes (take 4 r.buffer) in extract len (fill (4 + len) r.inbox r.buffer)

unfoldable pub recv_packet : Exec Reader (Option (List ℕ))
unfolding fill with_header
recv_packet r = with_header (fill 4 r.inbox r.buffer)

module _ {W : Type 0} (S : Ssh W) where
  unfoldable pub send_packet : S.Channel → List ℕ → Exec W (Unit {0})
  send_packet writer packet = do
    let framed = to_be_bytes (as_u32 (length packet)) ++ packet
    S.send_data writer framed
    pure tt

  unfoldable pub close : S.Channel → Exec W (Unit {0})
  close writer = do S.close writer; pure tt

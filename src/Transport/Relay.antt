-- ===== src/Transport/Relay.antt =====
-- x2ssh/src/transport.rs: `forward`, which copies between a client and a direct TCP/IP channel.
-- Its two tasks run as a sequence of events. An event is a round of the loop over the channel's
-- messages, or a reading or a sending of the spawned task, which can be aborted between the two.
pub mod Copies
pub mod Uploads
pub mod Completion
pub mod Delivery
pub mod Worlds
pub mod Untouched
use x2ssh.Base.{ℕ, List, [], ◌∷◌, Bool, true, false, ◌&&◌, Option, none, some, Str, codes}
use x2ssh.Base.{if◌then◌else◌, Result, ok, err, no_address, Exec, pure, raise, ◌>>=◌}
use x2ssh.Net.{IpAddr, IpNets, show_ip}
use x2ssh.Proto.Stream.{AsyncWrite}
use x2ssh.Ssh.{ChannelMsg, data_msg, eof, extended_data, exit_status, other, Ssh}
use x2ssh.Retry.Float.{F64}
use x2ssh.Transport.{Transport}

abbrev pub capacity : ℕ
capacity = 4096

-- The half of the client that is read: `read_buf` gives at most so many bytes, and none at the end.
pub record ReadHalf : Type 1 where
  pub State : Type 0
  pub read_buf : ℕ → Exec State (List ℕ)

-- Which task goes on: the one that reads the client, or the loop over the channel's messages.
pub data Event : Type 0 where
  from_client : Event
  from_channel : Event

module _ {W : Type 0} (S : Ssh W) (C : ReadHalf) (T : AsyncWrite) where
  pub record Relay : Type 0 where
    pub client_rx : C.State
    pub client_tx : T.State
    pub buf : List ℕ
    pub inbox : List ChannelMsg
    -- The spawned task runs; `forward` has not returned.
    pub uploading : Bool
    pub forwarding : Bool
    pub world : W

  after_read : S.Channel → Relay → Result (List ℕ) → C.State → Relay
  after_read channel r (ok []) rx = record r {
    client_rx = rx;
    uploading = false;
    world = (S.close channel r.world).1;
  }
  after_read channel r (ok (b ∷ bs)) rx = record r { client_rx = rx; buf = b ∷ bs }
  after_read channel r (err e) rx = record r { client_rx = rx; uploading = false }

  after_data : Relay → Result (Unit {0}) → W → Relay
  after_data r (ok _) w = record r { buf = []; world = w }
  after_data r (err e) w = record r { uploading = false; world = w }

  -- With an empty buffer the task reads, with a full one it sends.
  unfoldable pub upload : S.Channel → List ℕ → Relay → Relay
  unfolding after_read after_data
  upload channel [] r =
      let (got, rx) = C.read_buf capacity r.client_rx in after_read channel r got rx
  upload channel (b ∷ bs) r =
      let (sent, w) = S.send_data channel (b ∷ bs) r.world in after_data r sent w

  -- `jh.abort()` stops the other task too.
  unfoldable pub finish : Relay → Relay
  finish r = record r { uploading = false; forwarding = false }

  after_flush : Relay → Result (Unit {0}) → T.State → Relay
  unfolding finish
  after_flush r (ok _) tx = record r { client_tx = tx }
  after_flush r (err e) tx = finish (record r { client_tx = tx })

  after_write : Relay → Result (Unit {0}) → T.State → Relay
  unfolding after_flush finish
  after_write r (ok _) tx = let (flushed, tx') = T.flush tx in after_flush r flushed tx'
  after_write r (err e) tx = finish (record r { client_tx = tx })

  unfoldable pub download : List ChannelMsg → Relay → Relay
  unfolding after_write finish
  download [] r = finish r
  download (data_msg bs ∷ ms) r =
      let (written, tx) = T.write_all bs r.client_tx in
      after_write (record r { inbox = ms }) written tx
  download (eof ∷ ms) r = finish (record r { inbox = ms })
  download (extended_data bs n ∷ ms) r = record r { inbox = ms }
  download (exit_status n ∷ ms) r = record r { inbox = ms }
  download (other ∷ ms) r = record r { inbox = ms }

  unfoldable pub step : S.Channel → Event → Relay → Relay
  unfolding upload download
  step channel from_client r = if r.uploading then upload channel r.buf r else r
  step channel from_channel r = if r.forwarding then download r.inbox r else r

  unfoldable pub run : S.Channel → List Event → Relay → Relay
  unfolding step
  run channel [] r = r
  run channel (e ∷ es) r = run channel es (step channel e r)

  first_address : List (IpAddr × ℕ) → Exec W (IpAddr × ℕ)
  first_address [] = raise no_address
  first_address (to ∷ rest) = pure to

  -- What `forward` asks for behind the lock.
  unfoldable pub open_direct : (F : F64) → IpNets → Transport F S → IpAddr × ℕ → Exec W S.Channel
  open_direct F N self to =
      S.channel_open_direct_tcpip self.session (show_ip N to.0) to.1 (codes "127.0.0.1") 0

  unfoldable pub open_channel :
      (F : F64) → IpNets → Transport F S → Exec W (List (IpAddr × ℕ)) → Exec W S.Channel
  unfolding first_address open_direct
  open_channel F N self lookup_host = do
    found ← lookup_host
    to ← first_address found
    channel ← open_direct F N self to
    pure channel

  unfoldable pub opened_relay : S.Channel → C.State → T.State → W → Relay
  opened_relay channel rx tx w = record {
    client_rx = rx;
    client_tx = tx;
    buf = [];
    inbox = S.inbox channel w;
    uploading = true;
    forwarding = true;
    world = w;
  }

  -- The relay is given with the result, `none` while it runs.
  unfoldable pub forward :
      (F : F64)
      → IpNets
      → Transport F S
      → Exec W (List (IpAddr × ℕ))
      → C.State
      → T.State
      → List Event
      → W
      → Option (Result (Unit {0})) × W
  unfolding open_channel opened_relay run
  forward F N self lookup_host rx tx es w =
      let (opened, w') = open_channel F N self lookup_host w in
      elim opened [
        | err e ↦ (some (err e), w')
        | ok channel ↦
            let r = run channel es (opened_relay channel rx tx w') in
            (if r.forwarding then none else some (ok tt), r.world)
      ]

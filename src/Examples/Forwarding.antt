-- ===== src/Examples/Forwarding.antt =====
-- One forwarded connection.
use x2ssh.Base.{
  ℕ, zero, suc, ◌<◌, ◌⊎◌, inl, inr, sym, ap, ◌≡◌, refl, arith, List, [], ◌∷◌, ◌++◌, take, drop,
  take-append-drop, some, codes, Result, ok, true,
}
use x2ssh.Retry.{from_millis}
use x2ssh.Retry.Float.{exact}
use x2ssh.Net.{IpAddr, v4}
use x2ssh.Proto.Stream.{vector, vector-WritesBytes}
use x2ssh.Ssh.{Ssh, data_msg, eof, other}
use x2ssh.Tunnel.Upstream.{SendsBytes}
use x2ssh.Transport.Relay.Completion.{ReadsAll, SendsAll, forward-sent}
use x2ssh.Transport.{Transport}
use x2ssh.Transport.Relay.{
  ReadHalf, Event, from_client, from_channel, Relay, run, opened_relay, open_channel, forward,
}
use x2ssh.Transport.Relay.Copies.{Accepts}
use x2ssh.Transport.Relay.Uploads.{ReadsChunks, sent-run}
use x2ssh.Transport.Relay.Delivery.{forward-payload}
use x2ssh.Examples.World.{World, calm, server, server-SendsBytes, nets}

-- A client that is read from a list.
abbrev pub chunks : ReadHalf
chunks = record { State = List ℕ; read_buf = λ n s. (ok (take n s), drop n s) }

read_chunk :
    (n : ℕ) (s s' bs : List ℕ)
    → ◌≡◌ {A = Result (List ℕ) × List ℕ} (ok (take n s), drop n s) (ok bs, s')
    → s ≡ bs ++ s'
read_chunk n s s' bs h =
    let cut : take n s ++ drop n s ≡ s = take-append-drop n s in
    let front : take n s ≡ bs = cc in let back : drop n s ≡ s' = cc in cc

abbrev chunks-ReadsChunks : ReadsChunks chunks
chunks-ReadsChunks = record { content = λ s. s; read_buf-ok = read_chunk }

abbrev pub vector-Accepts : Accepts vector
vector-Accepts = record { write_all-ok = λ bs s. refl; flush-ok = λ s. refl }

abbrev pub self : Transport exact server
self = record {
  session = 3;
  config = record {
    retry_policy = record {
      max_attempts = some 5;
      initial_delay = from_millis 1000;
      backoff = 2;
      max_delay = from_millis 30000;
    };
    health_interval = from_millis 5000;
    key_path = some (codes "key");
    user = codes "user";
    host = codes "host";
    port = 22;
  };
}

abbrev pub busy : World
busy = record calm {
  inbox = data_msg (1 ∷ 2 ∷ []) ∷ other ∷ data_msg (3 ∷ []) ∷ eof ∷ data_msg (4 ∷ []) ∷ [];
}

abbrev pub lookup : World → Result (List (IpAddr × ℕ)) × World
lookup w = (ok ((v4 10 0 0 5, 80) ∷ []), w)

-- The client's bytes are read and sent between the messages of the channel.
abbrev turns : List Event
turns =
    from_client ∷ from_channel ∷ from_client ∷ from_channel ∷ from_channel ∷ from_channel
    ∷ from_client ∷ from_channel ∷ from_channel ∷ []

abbrev pub start : Relay server chunks vector
start = record {
  client_rx = 8 ∷ 9 ∷ [];
  client_tx = [];
  buf = [];
  inbox = busy.inbox;
  uploading = true;
  forwarding = true;
  world = busy;
}

forward-payload_example :
    (forward server chunks vector exact nets self lookup (8 ∷ 9 ∷ []) [] turns busy
      ≡ (some (ok tt), (run server chunks vector 3 turns start).world))
    × ((run server chunks vector 3 turns start).client_tx ≡ 1 ∷ 2 ∷ 3 ∷ [])
unfolding opened_relay open_channel
forward-payload_example =
    forward-payload server chunks vector vector-WritesBytes vector-Accepts exact nets self lookup
      (8 ∷ 9 ∷ []) [] turns busy busy 3 refl (omega arith)

-- Cut off between the reading and the sending.
sent-run_example :
    let r = run server chunks vector 3 (from_channel ∷ from_client ∷ []) start in
    r.world.sent ++ (r.buf ++ r.client_rx) ≡ 8 ∷ 9 ∷ []
unfolding run
sent-run_example =
    sent-run server server-SendsBytes chunks chunks-ReadsChunks vector 3
      (from_channel ∷ from_client ∷ []) start refl refl

read_all :
    (n : ℕ) (s : List ℕ)
    → 0 < n
    → ((s ≡ []) × (s' : List ℕ) × (chunks.read_buf n s ≡ (ok [], s')))
      ⊎ ((b : ℕ) × (bs : List ℕ) × (s' : List ℕ) × (chunks.read_buf n s ≡ (ok (b ∷ bs), s')))
read_all zero s h = absurd (omega arith)
read_all (suc n) [] h = inl (refl, [], refl)
read_all (suc n) (b ∷ s) h = inr (b, take n s, drop n s, refl)

chunks-ReadsAll : ReadsAll chunks chunks-ReadsChunks
chunks-ReadsAll = record { read_buf-all = read_all }

-- A server that takes all data.
abbrev append_sent : List ℕ → World → Result (Unit {0}) × World
append_sent bs w = (ok tt, record w { sent = w.sent ++ bs })

abbrev reliable : Ssh World
reliable = record server { send_data = λ c bs w. append_sent bs w }

appended : (bs : List ℕ) (w w' : World) → append_sent bs w ≡ (ok tt, w') → w'.sent ≡ w.sent ++ bs
appended bs w w' h = ap (λ (r : Result (Unit {0}) × World). r.1.sent) (sym h)

reliable-SendsBytes : SendsBytes reliable
reliable-SendsBytes = record {
  sent = λ c w. w.sent;
  send_data-ok = λ c bs w w' h. appended bs w w' h;
}

reliable-SendsAll : SendsAll reliable reliable-SendsBytes 3
unfolding reliable-SendsBytes
reliable-SendsAll = record { send_data-all = λ bs w. refl; close-sent = λ w. refl }

abbrev steady : Transport exact reliable
steady = record { session = 3; config = self.config }

abbrev client_turns : List Event
client_turns =
    from_client ∷ from_channel ∷ from_client ∷ from_client ∷ from_channel ∷ from_client
    ∷ from_client ∷ []

forward-sent_example : ◌≡◌ {A = List ℕ} (8 ∷ 9 ∷ []) (busy.sent ++ (8 ∷ 9 ∷ []))
unfolding reliable-SendsBytes open_channel forward run
forward-sent_example =
    forward-sent reliable reliable-SendsBytes chunks chunks-ReadsChunks chunks-ReadsAll vector 3
      reliable-SendsAll exact nets steady lookup (8 ∷ 9 ∷ []) [] client_turns busy busy
      (record busy { sent = 8 ∷ 9 ∷ [] }) refl (omega arith) refl

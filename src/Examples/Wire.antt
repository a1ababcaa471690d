-- ===== src/Examples/Wire.antt =====
-- Packets on the wire.
use x2ssh.Base.{ℕ, ◌≡◌, ◌≤◌, refl, List, [], ◌∷◌, arith, some, Error, ok, err, map, take, All}
use x2ssh.Proto.Bytes.{to_be_bytes, from_be_bytes}
use x2ssh.Proto.Stream.{slice, slice-ReadsBytes, vector, vector-WritesBytes}
use x2ssh.Proto.Framing.{read_framed, write_framed}
use x2ssh.Proto.RoundTrip.{frame, read_framed-write_framed, read_framed_truncated}
use x2ssh.Ssh.{data_msg, eof, other}
use x2ssh.TunRs.{queue, queue-FitsBuffer, queue-ReadsPackets}
use x2ssh.AgentMain.{client_to_tun, tun_to_client}
use x2ssh.Vpn.Agent.{Reader, recv_packet, send_packet}
use x2ssh.Vpn.Agent.Receive.{stream, next_packet, Receives, recv_packet-next_packet}
use x2ssh.Vpn.Agent.Buffer.{Holds}
use x2ssh.Vpn.Forward.Buffer.{agent_to_tun-Holds}
use x2ssh.Tunnel.Whole.{Within, upstream_whole}
use x2ssh.Vpn.Forward.{agent_to_tun, tun_to_agent}
use x2ssh.Tunnel.Received.{received, send_each, send_until_error}
use x2ssh.Tunnel.Downstream.{downstream}
use x2ssh.Tunnel.Upstream.{upstream}
use x2ssh.Examples.World.{calm, server, server-SendsBytes}

abbrev hello : List ℕ
hello = 104 ∷ 105 ∷ []

-- A frame of two bytes, and the start of one of three, cut anywhere, with other messages between.
abbrev cut_up : Reader
cut_up = record {
  inbox =
      data_msg (0 ∷ 0 ∷ [])
      ∷ other
      ∷ data_msg (2 ∷ 104 ∷ [])
      ∷ data_msg (105 ∷ 0 ∷ 0 ∷ [])
      ∷ eof
      ∷ [];
  buffer = 0 ∷ [];
}

frame_bytes : frame hello ≡ 0 ∷ 0 ∷ 0 ∷ 2 ∷ 104 ∷ 105 ∷ []
unfolding to_be_bytes
frame_bytes = refl

received_packet : (recv_packet cut_up).0 ≡ ok (some hello)
unfolding recv_packet from_be_bytes
received_packet = refl

read_framed-write_framed_example :
    ((read_framed slice (0 ∷ 0 ∷ 0 ∷ 2 ∷ 104 ∷ 105 ∷ 9 ∷ [])).0 ≡ ok hello)
    × ((read_framed slice (0 ∷ 0 ∷ 0 ∷ 2 ∷ 104 ∷ 105 ∷ 9 ∷ [])).1 ≡ 9 ∷ [])
unfolding write_framed to_be_bytes
read_framed-write_framed_example =
    read_framed-write_framed vector vector-WritesBytes slice slice-ReadsBytes hello (9 ∷ []) []
      (0 ∷ 0 ∷ 0 ∷ 2 ∷ 104 ∷ 105 ∷ []) (0 ∷ 0 ∷ 0 ∷ 2 ∷ 104 ∷ 105 ∷ 9 ∷ []) (omega arith) refl refl
      refl

read_framed_truncated_example :
    (e : Error) × ((read_framed slice (0 ∷ 0 ∷ 0 ∷ 2 ∷ 104 ∷ [])).0 ≡ err e)
unfolding to_be_bytes
read_framed_truncated_example =
    read_framed_truncated slice slice-ReadsBytes hello (0 ∷ 0 ∷ 0 ∷ 2 ∷ 104 ∷ []) [] 105
      (0 ∷ 0 ∷ 0 ∷ 2 ∷ 104 ∷ []) (omega arith) refl refl

recv_packet-next_packet_example :
    Receives (stream cut_up) (next_packet (stream cut_up)) (recv_packet cut_up)
recv_packet-next_packet_example = recv_packet-next_packet cut_up

abbrev two : List (List ℕ)
two = hello ∷ (7 ∷ []) ∷ []

abbrev two_frames : List ℕ
two_frames = 0 ∷ 0 ∷ 0 ∷ 2 ∷ 104 ∷ 105 ∷ 0 ∷ 0 ∷ 0 ∷ 1 ∷ 7 ∷ []

abbrev two_reader : Reader
two_reader = record {
  inbox = data_msg (0 ∷ 0 ∷ 0 ∷ 2 ∷ 104 ∷ []) ∷ data_msg (105 ∷ 0 ∷ 0 ∷ 0 ∷ 1 ∷ 7 ∷ []) ∷ eof ∷ [];
  buffer = [];
}

downstream_example :
    ((agent_to_tun queue 3 two_reader ([], [])).0 ≡ some (ok tt))
    × ((agent_to_tun queue 3 two_reader ([], [])).2
        ≡ send_each queue (received queue 2 (two, [])) ([], []))
unfolding tun_to_client write_framed to_be_bytes received
downstream_example =
    downstream vector vector-WritesBytes queue queue-FitsBuffer queue 2 3 (two, []) ([], []) []
      two_frames two_reader ([], []) refl refl refl (omega arith)

upstream_example :
    ((client_to_tun slice queue 3 two_frames ([], [])).1
      ≡ (send_until_error queue (received queue 2 (two, [])) ([], [])).1)
    × (e : Error) × ((client_to_tun slice queue 3 two_frames ([], [])).0 ≡ some e)
unfolding tun_to_agent send_packet to_be_bytes received
upstream_example =
    upstream server server-SendsBytes queue queue-FitsBuffer slice slice-ReadsBytes queue 2 3 0
      (two, []) ([], []) calm (record calm { sent = two_frames }) two_frames ([], []) refl refl refl
      (omega arith)

-- Messages of 5 and 6 bytes: behind the first packet the second waits in the buffer.
agent_to_tun-Holds_example :
    Holds 6 7 (record { inbox = eof ∷ []; buffer = 0 ∷ 0 ∷ 0 ∷ 1 ∷ 7 ∷ [] })
unfolding agent_to_tun recv_packet from_be_bytes
agent_to_tun-Holds_example =
    agent_to_tun-Holds queue 6 1 two_reader
      (record { inbox = eof ∷ []; buffer = 0 ∷ 0 ∷ 0 ∷ 1 ∷ 7 ∷ [] }) ([], []) ([], hello ∷ [])
      (omega arith) refl

upstream_whole_example :
    ((client_to_tun slice queue 3 two_frames ([], [])).1
      ≡ (send_until_error queue (map (take 2048) two) ([], [])).1)
    × ((mtu : ℕ)
        → mtu ≤ 2048
        → All (Within mtu) two
        → (client_to_tun slice queue 3 two_frames ([], [])).1
          ≡ (send_until_error queue two ([], [])).1)
unfolding tun_to_agent send_packet to_be_bytes
upstream_whole_example =
    upstream_whole server server-SendsBytes queue queue-FitsBuffer queue-ReadsPackets slice
      slice-ReadsBytes queue 2 3 0 (two, []) ([], []) calm (record calm { sent = two_frames })
      two_frames ([], []) refl refl refl (omega arith) (omega arith)

-- ===== src/Examples/Duplex.antt =====
-- Both programs, with packets in both directions.
use x2ssh.Base.{List, ◌≡◌, refl, [], ◌∷◌, none}
use x2ssh.Proto.Bytes.{to_be_bytes, from_be_bytes}
use x2ssh.Proto.Framing.{read_framed, write_framed}
use x2ssh.Proto.Stream.{slice, slice-ReadsBytes, vector, vector-WritesBytes}
use x2ssh.Ssh.{data_msg}
use x2ssh.TunRs.{queue, queue-FitsBuffer}
use x2ssh.AgentMain.Tasks.{Side, from_client, from_tun, Bridge, bridge}
use x2ssh.Vpn.Agent.{recv_packet, send_packet}
use x2ssh.Vpn.Forward.Tasks.{Turn, up, down, Forwarding, turns}
use x2ssh.Tunnel.Received.{received}
use x2ssh.Tunnel.Duplex.{duplex}
use x2ssh.Examples.World.{calm, server, server-SendsBytes}
use x2ssh.Examples.Vpn.{queue-FullDuplex}

-- The client has sent two frames, of which the first and a byte of the second have come; the agent
-- has sent two, of which the first and the header of the second have.
abbrev client : Forwarding server queue
client = record {
  device = ((1 ∷ []) ∷ (2 ∷ 3 ∷ []) ∷ [], []);
  reader = record {
    inbox = data_msg (0 ∷ 0 ∷ 0 ∷ 2 ∷ 5 ∷ []) ∷ data_msg (6 ∷ 0 ∷ 0 ∷ 0 ∷ 1 ∷ []) ∷ [];
    buffer = [];
  };
  result = none;
  world = calm;
}

abbrev agent : Bridge slice vector queue
agent = record {
  stdin = 0 ∷ 0 ∷ 0 ∷ 1 ∷ 1 ∷ 0 ∷ [];
  stdout = [];
  tun = ((5 ∷ 6 ∷ []) ∷ (7 ∷ []) ∷ [], []);
  failure = none;
}

abbrev client_sides : List Turn
client_sides = up ∷ down ∷ up ∷ []

abbrev agent_sides : List Side
agent_sides = from_tun ∷ from_client ∷ from_tun ∷ []

duplex_example :
    ((bridge slice vector queue agent_sides agent).tun.1 ≡ (1 ∷ []) ∷ [])
    × ((turns server queue 3 client_sides client).device.1 ≡ (5 ∷ 6 ∷ []) ∷ [])
unfolding turns bridge received read_framed write_framed recv_packet send_packet to_be_bytes
    from_be_bytes
duplex_example =
    duplex server server-SendsBytes queue queue-FullDuplex queue-FitsBuffer 3 slice slice-ReadsBytes
      vector vector-WritesBytes queue queue-FullDuplex queue-FitsBuffer client_sides agent_sides
      client agent (0 ∷ 0 ∷ 2 ∷ 2 ∷ 3 ∷ []) (7 ∷ []) refl refl refl refl refl refl

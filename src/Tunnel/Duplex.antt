-- ===== src/Tunnel/Duplex.antt =====
-- Both programs at work: the two tasks of `VpnSession::forward` and the two of the agent's `main`.
use x2ssh.Base.{ℕ, ◌≡◌, ap, ◌∙◌, List, [], ◌++◌, take, none}
use x2ssh.Proto.Stream.{AsyncRead, ReadsBytes, AsyncWrite, WritesBytes}
use x2ssh.Proto.RoundTrip.{frames}
use x2ssh.Ssh.{Ssh}
use x2ssh.TunRs.{Tun, FitsBuffer, FullDuplex}
use x2ssh.AgentMain.Tasks.{Side, Bridge, bridge}
use x2ssh.AgentMain.Interleaving.{
  client_turns, tun_turns, bridge-frames, client_turns-first_packets,
}
use x2ssh.Vpn.Agent.Receive.{stream}
use x2ssh.Vpn.Forward.Tasks.{Turn, Forwarding, turns}
use x2ssh.Vpn.Forward.Interleaving.{ups, downs, sent-turns, outgoing-turns, downs-first_packets}
use x2ssh.Tunnel.Received.{received, received-Fits, put_all}
use x2ssh.Tunnel.Packets.{first_packets-take}
use x2ssh.Tunnel.Upstream.{SendsBytes}

module _ {W : Type 0} (S : Ssh W) (LS : SendsBytes S) (C : Tun) (DC : FullDuplex C)
    (FC : FitsBuffer C) (channel : S.Channel) where
  module _ (R : AsyncRead) (LR : ReadsBytes R) (O : AsyncWrite) (LO : WritesBytes O) (A : Tun)
      (DA : FullDuplex A) (FA : FitsBuffer A) where
    -- Both programs start with nothing sent, and are still running, their tasks having had turns in
    -- any order. If what each is given begins the bytes that the other has sent, the rest of them
    -- (`ahead` and `behind`) being under way, then each device has been sent exactly the first
    -- packets that the other device gave, in order, one for each turn of the task that receives.
    pub duplex :
        (ts : List Turn) (ts' : List Side) (f : Forwarding S C) (b : Bridge R O A)
        (ahead behind : List ℕ)
        → (turns S C channel ts f).result ≡ none
        → (bridge R O A ts' b).failure ≡ none
        → LS.sent channel f.world ≡ []
        → LO.written b.stdout ≡ []
        → LR.remaining b.stdin ++ ahead ≡ LS.sent channel (turns S C channel ts f).world
        → stream f.reader ++ behind ≡ LO.written (bridge R O A ts' b).stdout
        → (DA.outgoing (bridge R O A ts' b).tun
            ≡ put_all DA
                (take (client_turns ts') (received C (ups ts) f.device))
                (DA.outgoing b.tun))
          × (DC.outgoing (turns S C channel ts f).device
              ≡ put_all DC
                  (take (downs ts) (received A (tun_turns ts') b.tun))
                  (DC.outgoing f.device))
    duplex ts ts' f b ahead behind runs runs' fresh fresh' up_link down_link =
        let qs = received C (ups ts) f.device in
        let ps = received A (tun_turns ts') b.tun in
        let (written, arrived) = bridge-frames R LR O LO A DA ts' b runs' in
        let to_agent : LR.remaining b.stdin ++ ahead ≡ frames qs =
          up_link ∙ sent-turns S LS C DC channel ts f runs ∙ ap (λ x. x ++ frames qs) fresh in
        let to_client : stream f.reader ++ behind ≡ frames ps =
          down_link ∙ written ∙ ap (λ x. x ++ frames ps) fresh' in
        (
          arrived
              ∙ ap (λ x. put_all DA x (DA.outgoing b.tun))
                  (first_packets-take (client_turns ts') qs (LR.remaining b.stdin) ahead
                    (received-Fits C FC (ups ts) f.device) to_agent
                    (client_turns-first_packets R LR O A DA ts' b runs')),
          outgoing-turns S C DC channel ts f runs
              ∙ ap (λ x. put_all DC x (DC.outgoing f.device))
                  (first_packets-take (downs ts) ps (stream f.reader) behind
                    (received-Fits A FA (tun_turns ts') b.tun) to_client
                    (downs-first_packets S C DC channel ts f runs)),
        )

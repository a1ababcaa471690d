-- ===== src/Examples/World.antt =====
-- A small outside world, with which every parameter of the model can be instantiated.
use x2ssh.Base.{ℕ, zero, suc, ◌≡◌, ap, sym, List, [], ◌∷◌, ◌++◌, Str, codes, Bool, true, false}
use x2ssh.Base.{foreign, Result, ok, err, str_eq, if◌then◌else◌}
use x2ssh.Net.{IpAddr, v4, IpNets}
use x2ssh.Ssh.{ChannelMsg, Ssh}
use x2ssh.Vpn.Session.{Host}
use x2ssh.Tunnel.Upstream.{SendsBytes}

-- How many connections are still refused, the bytes sent, the messages that a channel gives, the
-- `ip` commands and the remote commands that ran, whether a send fails, and the error replies that
-- SOCKS5 clients were sent.
pub record World : Type 0 where
  pub refused : ℕ
  pub sent : List ℕ
  pub inbox : List ChannelMsg
  pub routes : List (List Str)
  pub remote : List Str
  pub broken : Bool
  pub error_replies : ℕ

abbrev pub calm : World
calm = record {
  refused = 0;
  sent = [];
  inbox = [];
  routes = [];
  remote = [];
  broken = false;
  error_replies = 0;
}

abbrev pub connected : ℕ → World → Result ℕ × World
connected zero w = (ok 7, w)
connected (suc n) w = (err (foreign 2), record w { refused = n })

abbrev pub sent_or_broken : Bool → List ℕ → World → Result (Unit {0}) × World
sent_or_broken true bs w = (err (foreign 3), w)
sent_or_broken false bs w = (ok tt, record w { sent = w.sent ++ bs })

abbrev pub server : Ssh World
server = record {
  Key = Str;
  Hash = Unit {0};
  Handle = ℕ;
  Channel = ℕ;
  load_secret_key = λ path w. (ok path, w);
  connect = λ addr w. connected w.refused w;
  best_supported_rsa_hash = λ h w. (ok tt, w);
  authenticate_publickey = λ h user key hash w. (ok true, w);
  channel_open_session = λ h w. (ok h, w);
  channel_open_direct_tcpip = λ h ip port from_ip from_port w. (ok h, w);
  exec = λ c cmd w. (ok tt, record w { remote = w.remote ++ (cmd ∷ []) });
  send_data = λ c bs w. sent_or_broken w.broken bs w;
  send_eof = λ c w. (ok tt, w);
  close = λ c w. (err (foreign 4), w);
  inbox = λ c w. w.inbox;
}

pub sent_lem :
    (b : Bool) (bs : List ℕ) (w w' : World)
    → sent_or_broken b bs w ≡ (ok tt, w')
    → w'.sent ≡ w.sent ++ bs
sent_lem true bs w w' h = cc
sent_lem false bs w w' h =
    let e : record w { sent = w.sent ++ bs } ≡ w' = cc in ap (λ v. v.sent) (sym e)

abbrev pub server-SendsBytes : SendsBytes server
server-SendsBytes = record {
  sent = λ c w. w.sent;
  send_data-ok = λ c bs w w' h. sent_lem w.broken bs w w' h;
}

abbrev pub gateway : IpAddr
gateway = v4 192 168 0 1

abbrev pub net_of : Str → Result Str
net_of s = if str_eq s (codes "bad") then err (foreign 5) else ok s

-- A network is its text, and every text but one parses.
abbrev pub nets : IpNets
nets = record {
  IpNet = Str;
  parse_net = net_of;
  addr = λ s. if str_eq s (codes "10.8.0.1/24") then v4 10 8 0 1 else v4 10 8 0 2;
  prefix_len = λ s. 24;
  show_net = λ s. s;
  of_ip = λ ip. codes "server";
  show_v6 = λ n. [];
}

-- `ip` answers every command with a default route.
abbrev pub host : Host World
host = record {
  Device = Str;
  run_ip = λ cmd w. (
    ok (codes "default via 192.168.0.1 dev eth0 proto dhcp"),
    record w { routes = w.routes ++ (cmd ∷ []) },
  );
  drop_tun = λ name w. record w { routes = w.routes ++ ((codes "gone" ∷ name ∷ []) ∷ []) };
  build_tun = λ name addr prefix mtu w. (ok name, w);
  new_connection = λ w. (ok tt, w);
  agent_binary = 1 ∷ 2 ∷ [];
  show = λ bs. bs;
}

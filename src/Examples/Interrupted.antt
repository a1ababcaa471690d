-- ===== src/Examples/Interrupted.antt =====
-- A session that Ctrl+C ends while packets are under way.
use x2ssh.Base.{ℕ, str_eq, ◌≡◌, refl, arith, List, [], ◌∷◌, Bool, true, false, some, ok, Str, codes}
use x2ssh.Config.{client_ip}
use x2ssh.Vpn.Tun.{create}
use x2ssh.TunRs.{queue, QueueState}
use x2ssh.Vpn.Keeps.{Unseen}
use x2ssh.Vpn.Forward.Tasks.{up, down}
use x2ssh.Vpn.Session
use x2ssh.Vpn.Session.Cleaning.{hooks, cleaned, Closing, Detached, Move, cleans, goes_on, moves}
use x2ssh.Vpn.Session.Cleaning.Beside.{moves-cleanup}
use x2ssh.Vpn.Session.Run.{run_vpn_tasks}
use x2ssh.Vpn.Session.Run.Restores.{run_vpn_tasks-restores}
use x2ssh.Retry.Float.{exact}
use x2ssh.Examples.World.{World, calm, server, gateway, nets, host, sent_or_broken}
use x2ssh.Examples.Session.{
  self, config, original, server_tun, ssh_ip, spawns, shown, default_route, server_addr,
}
use x2ssh.Examples.Table.{route_table, not_there, default_entry, default_taken}
use x2ssh.Examples.Lifecycle.{running, started, session_starts}

send_data-lookup :
    (x : Str) (b : Bool) (bs : List ℕ) (w : World)
    → route_table.lookup (sent_or_broken b bs w).1 x ≡ route_table.lookup w x
send_data-lookup x true bs w = refl
send_data-lookup x false bs w = refl

pub unseen : (x : Str) → Unseen server (λ w. route_table.lookup w x)
unseen x = record {
  channel_open_session-view = λ h w. refl;
  exec-view = λ c cmd w. refl;
  send_data-view = λ c bs w. send_data-lookup x w.broken bs w;
  send_eof-view = λ c w. refl;
  close-view = λ c w. refl;
}

abbrev pub two_packets : QueueState
two_packets = ((1 ∷ []) ∷ (2 ∷ []) ∷ (3 ∷ []) ∷ [], [])

abbrev detached : Detached server queue
detached = record {
  device = two_packets;
  reader = record { inbox = []; buffer = [] };
  up_over = false;
  down_over = false;
}

-- A packet is sent between the hook and the closing of the agent, and one behind that.
abbrev race : List Move
race =
    cleans
    ∷ goes_on up
    ∷ cleans
    ∷ goes_on down
    ∷ cleans
    ∷ goes_on up
    ∷ cleans
    ∷ cleans
    ∷ cleans
    ∷ []

moves-cleanup_example :
    let start : Closing exact nets server host = record {
      stage = hooks (codes "down" ∷ []);
      session = running;
      world = started;
    } in
    let end = (moves exact nets server host queue self race (start, detached)).0 in
    (end.stage ≡ cleaned)
    × ((x : Str)
        → route_table.lookup end.world x
          ≡ route_table.lookup
              (Session.cleanup exact nets server host self config running started).2
              x)
moves-cleanup_example =
    moves-cleanup exact nets server host self spawns route_table unseen queue config running started
      race detached refl (omega arith)

run_vpn_tasks-restores_example :
    let (r, end) =
      run_vpn_tasks exact nets server host queue self config 0 ssh_ip
        (up ∷ [])
        race
        two_packets
        calm in
    (r ≡ some (ok tt))
    × ((x : Str)
        → str_eq x (codes "server") ≡ false
        → route_table.lookup end x ≡ route_table.lookup calm x)
unfolding create client_ip
run_vpn_tasks-restores_example =
    run_vpn_tasks-restores exact nets server host self config spawns route_table unseen ssh_ip
      server_tun gateway original (codes "tun0") running calm calm calm (shown calm) started refl
      refl server_addr default_route refl default_entry default_taken refl not_there session_starts
      queue two_packets (up ∷ []) race (omega arith)

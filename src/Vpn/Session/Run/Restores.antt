-- ===== src/Vpn/Session/Run/Restores.antt =====
-- The routing table behind a whole run of `run_vpn`.
use x2ssh.Base.{
  [], ◌≤◌, ◌≡◌, sym, ap, ◌∙◌, List, Bool, true, false, Option, none, some, Str, codes, str_eq,
  Result, ok,
}
use x2ssh.Net.{IpAddr, IpNets, show_ip}
use x2ssh.Ssh.{Ssh}
use x2ssh.TunRs.{Tun}
use x2ssh.Retry.Float.{F64}
use x2ssh.Transport.{Transport}
use x2ssh.Config.{VpnConfig, server_ip}
use x2ssh.Vpn.Keeps.{Unseen}
use x2ssh.Vpn.Forward.Tasks.{Turn, Forwarding, turns}
use x2ssh.Vpn.IpRoute.{RouteInfo, get_default_route}
use x2ssh.Vpn.Routing
use x2ssh.Vpn.Routing.{RoutingState, new, setup}
use x2ssh.Vpn.Routing.Commands.{Spawns, issue, parsed}
use x2ssh.Vpn.Routing.Setup.{cleanup_lem}
use x2ssh.Vpn.Routing.Table.{Change, changes, RouteTable, excludes, name_of}
use x2ssh.Vpn.Routing.Table.Restore.{lookup-issue, cleanup-restores}
use x2ssh.Vpn.Tun.{create}
use x2ssh.Vpn.Session.{Host, VpnSession, start}
use x2ssh.Vpn.Session.Cleaning.{hooks, Move, moves, Detached}
use x2ssh.Vpn.Session.Lifecycle.{cleanup_open}
use x2ssh.Vpn.Session.Cleaning.Steps.{calls_left}
use x2ssh.Vpn.Session.Cleaning.Changes.{cleaning_moves}
use x2ssh.Vpn.Session.Cleaning.Beside.{
  cleanup_changes, cleanup_changes-words, cleanup-changes, interrupted-changes,
}
use x2ssh.Vpn.Session.Run.Begun.{turns-view, start-Started}
use x2ssh.Vpn.Session.Run.{forwarding, after_select, first_stage, ended_at, run_vpn_tasks}

module _ (F : F64) (N : IpNets) {W : Type 0} (S : Ssh W) (H : Host W) (transport : Transport F S)
    (config : VpnConfig) (sp : Spawns H.run_ip) (R : RouteTable H.run_ip)
    (U : (x : Str) → Unseen S (λ w. R.lookup w x)) where
  abbrev left : RoutingState N → List Change
  left = cleanup_changes F N S H transport sp R U

  routing_cleanup-changes :
      (state : RoutingState N) (w : W) (x : Str)
      → R.lookup (Routing.cleanup N H.run_ip (state, w)).1.1 x
        ≡ changes R.takes (left state) x (R.lookup w x)
  routing_cleanup-changes state w x =
      ap (λ r. R.lookup r.1.1 x) (cleanup_lem N H.run_ip sp state w)
      ∙ ap (λ cs. R.lookup (issue H.run_ip cs w) x)
          (sym (cleanup_changes-words F N S H transport sp R U state))
      ∙ lookup-issue N H.run_ip R (left state) w x

  after_select-changes :
      (T : Tun) (o : Option (Result (Unit {0}))) (session : VpnSession F N S H) (ms : List Move)
      (f : Forwarding S T)
      → session.cleaned_up ≡ false
      → calls_left F N S H transport (hooks config.pre_down) session ≤ cleaning_moves ms
      → let (r, w) = after_select F N S H T transport config o session ms f in
        (r ≡ some (ok tt))
        × ((x : Str) → R.lookup w x ≡ changes R.takes (left session.routing) x (R.lookup f.world x))
  after_select-changes T (some forwarded) session ms f open' enough =
      let d : Detached S T = record {
        device = f.device;
        reader = f.reader;
        up_over = true;
        down_over = true;
      } in
      (
        ap (λ r. some r.0) (cleanup_open F N S H transport config session f.world open'),
        cleanup-changes F N S H transport sp R U T config session f.world d open',
      )
  after_select-changes T none session ms f open' enough =
      let d : Detached S T = record {
        device = f.device;
        reader = f.reader;
        up_over = false;
        down_over = false;
      } in
      let (over', looks) =
        interrupted-changes F N S H transport sp R U T config session f.world ms d enough in
      let end = λ (b : Bool).
        (moves F N S H T transport ms (
          record {
            stage = first_stage F N S H T transport config b;
            session = session;
            world = f.world;
          },
          d,
        )).0 in
      (
        ap (λ b. ended_at F N S H T transport config (end b).stage) open'
            ∙ ap (ended_at F N S H T transport config) over',
        λ x. ap (λ b. R.lookup (end b).world x) open' ∙ looks x,
      )

  module _ (ssh_ip server gw : IpAddr) (o : RouteInfo N) (device : H.Device)
      (session : VpnSession F N S H) (w w₀ w₁ w₂ w₃ : W)
      (created : create H.build_tun N config w ≡ (ok device, w₀))
      (connected : H.new_connection w₀ ≡ (ok tt, w₁)) (valid : server_ip N config ≡ ok server)
      (known : get_default_route N H.run_ip w₁ ≡ (ok (some o), w₂)) (has_gw : o.gateway ≡ some gw)
      (agrees : R.lookup w₁ (codes "default") ≡ some (some (show_ip N gw), o.interface))
      (taken : R.takes (codes "default") (some (show_ip N gw)) o.interface ≡ true)
      (no_default : excludes N (codes "default") (parsed N config.exclude).0 ≡ false)
      (fresh : (y : Str) → excludes N y (parsed N config.exclude).0 ≡ true → R.lookup w₁ y ≡ none)
      (started : start F N S H transport config ssh_ip w ≡ (ok session, w₃)) where
    -- A run as root whose session starts: whatever turns the tasks of `forward` have, and whether
    -- one of them or Ctrl+C ends the `select!`, with the tasks going on beside the cleanup then,
    -- `run_vpn` returns Ok after as many calls as the cleanup has. Every entry of the routing table
    -- but that of the SSH server is then what it was when the TUN device had been created, if the
    -- default route was as `get_default_route` read it, with a gateway by which the host takes it, and
    -- no exclusion is that route or had one of its own. The session is not dropped yet then: the
    -- device, with the routes that the kernel has for it, goes behind that.
    pub run_vpn_tasks-restores :
        (T : Tun) (tun : T.State) (ts : List Turn) (ms : List Move)
        → calls_left F N S H transport (hooks config.pre_down) session ≤ cleaning_moves ms
        → let (r, end) = run_vpn_tasks F N S H T transport config 0 ssh_ip ts ms tun w in
          (r ≡ some (ok tt))
          × ((x : Str)
              → str_eq x (name_of (N.show_net (N.of_ip ssh_ip))) ≡ false
              → R.lookup end x ≡ R.lookup w₁ x)
    unfolding run_vpn_tasks
    run_vpn_tasks-restores T tun ts ms enough =
        let begun = λ (x : Str).
          start-Started F N S H transport config (λ v. R.lookup v x) (U x) ssh_ip session device w
            w₀ w₁ w₃ created connected started in
        let f =
          turns S T session.agent.writer ts
            (forwarding F N S H T transport config session tun w₃) in
        let (result, looks) = after_select-changes T f.result session ms f (begun []).2 enough in
        rw started (
          result,
          λ x other.
              let (w₄, setup', _, same) = begun x in
              looks x
              ∙ ap (changes R.takes (left session.routing) x) (
                  turns-view S T (λ v. R.lookup v x) (U x) session.agent.writer ts
                    (forwarding F N S H T transport config session tun w₃)
                  ∙ same)
              ∙ sym (routing_cleanup-changes session.routing w₄ x)
              ∙ ap (λ s. R.lookup (Routing.cleanup N H.run_ip s).1.1 x) (sym setup')
              ∙ cleanup-restores N H.run_ip R sp config ssh_ip server o w₁ w₂ valid known no_default
                  gw has_gw agrees taken fresh x other,
        )

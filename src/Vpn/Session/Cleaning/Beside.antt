-- ===== src/Vpn/Session/Cleaning/Beside.antt =====
-- The detached tasks beside a cleanup: they do not change what it does to the routing table.
use x2ssh.Base.{
  ℕ, zero, suc, ◌≤◌, ◌≡◌, refl, sym, ap, ◌∙◌, List, [], ◌∷◌, ◌++◌, map, arith, false, Option, none,
  some, Str,
}
use x2ssh.Net.{IpNets}
use x2ssh.Ssh.{Ssh}
use x2ssh.TunRs.{Tun}
use x2ssh.Retry.Float.{F64}
use x2ssh.Transport.{Transport}
use x2ssh.Config.{VpnConfig}
use x2ssh.Vpn.Keeps.{Unseen}
use mathlib.Core.Path.{ap₂}
use mathlib.Core.List.{map-append}
use x2ssh.Base.{codes}
use x2ssh.Vpn.IpRoute.{RouteInfo}
use x2ssh.Vpn.Routing.{RoutingState}
use x2ssh.Vpn.Routing.Commands.{Spawns, del_net, del_default, del_commands, restore_commands}
use x2ssh.Vpn.Routing.Table.Cycle.{restored, restore_via-words}
use x2ssh.Vpn.Routing.Table.{Change, del, words, changes, RouteTable}
use x2ssh.Vpn.Session.{Host, VpnSession, cleanup}
use x2ssh.Vpn.Session.Cleaning.{
  hooks, cleaned, Closing, cleanup_commands, clean, clean_steps, Detached, Move, cleans, moves,
}
use x2ssh.Vpn.Session.Cleaning.Steps.{calls_left, clean_steps-cleanup}
use x2ssh.Vpn.Session.Cleaning.Changes.{cleaning_moves, moves-changes}

module _ (F : F64) (N : IpNets) {W : Type 0} (S : Ssh W) (H : Host W) (transport : Transport F S)
    (sp : Spawns H.run_ip) (R : RouteTable H.run_ip)
    (U : (x : Str) → Unseen S (λ w. R.lookup w x)) where
  abbrev pub deletes : List (RouteInfo N) → List Change
  deletes [] = []
  deletes (r ∷ rs) = del (N.show_net r.destination) ∷ deletes rs

  deletes-words : (rs : List (RouteInfo N)) → map words (deletes rs) ≡ del_commands N rs
  deletes-words [] = refl
  deletes-words (r ∷ rs) = ap (λ cs. del_net N r.destination ∷ cs) (deletes-words rs)

  abbrev pub restores : Option (RouteInfo N) → List Change
  restores none = []
  restores (some o) = restored N o.interface o.gateway

  restores-words : (o : Option (RouteInfo N)) → map words (restores o) ≡ restore_commands N o
  restores-words none = refl
  restores-words (some o) = sym (restore_via-words N o.interface o.gateway)

  abbrev pub cleanup_changes : RoutingState N → List Change
  cleanup_changes state =
      del (codes "default")
      ∷ (restores state.original_default_route ++ deletes state.exclusion_routes)

  pub cleanup_changes-words :
      (state : RoutingState N) → map words (cleanup_changes state) ≡ cleanup_commands F N S H state
  cleanup_changes-words state =
      ap (λ cs. del_default ∷ cs)
        (map-append words (restores state.original_default_route) (deletes state.exclusion_routes)
          ∙ ap₂ (λ cs ds. cs ++ ds) (restores-words state.original_default_route)
              (deletes-words state.exclusion_routes))

  abbrev all_cleans : ℕ → List Move
  all_cleans zero = []
  all_cleans (suc n) = cleans ∷ all_cleans n

  cleaning_moves-all_cleans : (n : ℕ) → n ≤ cleaning_moves (all_cleans n)
  cleaning_moves-all_cleans zero = omega arith
  cleaning_moves-all_cleans (suc n) = omega (arith, cleaning_moves-all_cleans n)

  moves-all_cleans :
      (T : Tun) (n : ℕ) (c : Closing F N S H) (d : Detached S T)
      → moves F N S H T transport (all_cleans n) (c, d) ≡ (clean_steps F N S H transport n c, d)
  unfolding moves clean_steps
  moves-all_cleans T zero c d = refl
  moves-all_cleans T (suc n) c d = moves-all_cleans T n (clean F N S H transport c) d

  pub cleanup-changes :
      (T : Tun) (config : VpnConfig) (self : VpnSession F N S H) (w : W) (d : Detached S T)
      → self.cleaned_up ≡ false
      → (x : Str)
      → R.lookup (cleanup F N S H transport config self w).2 x
        ≡ changes R.takes (cleanup_changes self.routing) x (R.lookup w x)
  cleanup-changes T config self w d open' x =
      let start : Closing F N S H = record {
        stage = hooks config.pre_down;
        session = self;
        world = w;
      } in
      let n = calls_left F N S H transport start.stage self in
      let (_, alone) =
        moves-changes F N S H transport sp R U T (all_cleans n) start d
          (cleanup_changes self.routing) (cleanup_changes-words self.routing)
          (cleaning_moves-all_cleans n) in
      let (_, same) = clean_steps-cleanup F N S H transport config self w open' in
      ap (λ r. R.lookup r.2 x) same
      ∙ ap (λ b. R.lookup b.0.world x) (sym (moves-all_cleans T n start d))
      ∙ alone x

  pub interrupted-changes :
      (T : Tun) (config : VpnConfig) (self : VpnSession F N S H) (w : W) (ms : List Move)
      (d : Detached S T)
      → calls_left F N S H transport (hooks config.pre_down) self ≤ cleaning_moves ms
      → let start : Closing F N S H = record {
        stage = hooks config.pre_down;
        session = self;
        world = w;
      } in
        let end = (moves F N S H T transport ms (start, d)).0 in
        (end.stage ≡ cleaned)
        × ((x : Str)
            → R.lookup end.world x
              ≡ changes R.takes (cleanup_changes self.routing) x (R.lookup w x))
  interrupted-changes T config self w ms d enough =
      moves-changes F N S H transport sp R U T ms
        (record { stage = hooks config.pre_down; session = self; world = w }) d
        (cleanup_changes self.routing) (cleanup_changes-words self.routing) enough

  -- A cleanup whose calls come between the rounds of the two tasks of a dropped `forward`, in any
  -- order, is done after as many calls as it has, and leaves the routing table that it would
  -- have left if nothing had run beside it.
  pub moves-cleanup :
      (T : Tun) (config : VpnConfig) (self : VpnSession F N S H) (w : W) (ms : List Move)
      (d : Detached S T)
      → self.cleaned_up ≡ false
      → calls_left F N S H transport (hooks config.pre_down) self ≤ cleaning_moves ms
      → let start : Closing F N S H = record {
        stage = hooks config.pre_down;
        session = self;
        world = w;
      } in
        let end = (moves F N S H T transport ms (start, d)).0 in
        (end.stage ≡ cleaned)
        × ((x : Str)
            → R.lookup end.world x ≡ R.lookup (cleanup F N S H transport config self w).2 x)
  moves-cleanup T config self w ms d open' enough =
      let (over', looks) = interrupted-changes T config self w ms d enough in
      (over', λ x. looks x ∙ sym (cleanup-changes T config self w d open' x))

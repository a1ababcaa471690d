-- ===== src/Vpn/Session/Cleaning/Steps.antt =====
-- The calls of a cleanup, one after the other, make up `VpnSession::cleanup`.
use x2ssh.Base.{
  ℕ, zero, suc, ◌≡◌, refl, sym, ap, ◌∙◌, List, [], ◌∷◌, ◌++◌, length, true, false, Option, none,
  some, Str, Result, ok, err, Result-cases, inl, inr, Exec, pure, ◌>>=◌, continue,
}
use x2ssh.Vpn.IpRoute.{RouteInfo, delete_route, delete_default_route, add_default_route}
use x2ssh.Vpn.Routing.Commands.{
  del_net, add_default, del_default, del_commands, restore_commands, restore_via,
}
use x2ssh.Base.{is_empty, if◌then◌else◌}
use x2ssh.Net.{IpAddr, IpNets}
use x2ssh.Ssh.{Ssh}
use x2ssh.Retry.Float.{F64}
use x2ssh.Transport.{Transport, exec}
use x2ssh.Config.{VpnConfig}
use x2ssh.Vpn.Agent.{close}
use x2ssh.Vpn.Hooks.{pre_down_loop, run_pre_down}
use x2ssh.Vpn.Routing
use x2ssh.Vpn.Routing.{RoutingState, delete_all, restore_default, restore_gateway}
use x2ssh.Vpn.Session.Lifecycle.{cleanup_open}
use x2ssh.Vpn.Session.{Host, VpnSession, tear_down, cleanup}
use x2ssh.Vpn.Session.Cleaning.{
  Stage, hooks, routes, cleaned, Closing, cleanup_commands, cleared, marked, after_command,
  clean_steps,
}

module _ (F : F64) (N : IpNets) {W : Type 0} (S : Ssh W) (H : Host W)
    (transport : Transport F S) where
  steps-cleaned :
      (n : ℕ) (self : VpnSession F N S H) (w : W)
      → let c : Closing F N S H = record { stage = cleaned; session = self; world = w } in
        clean_steps F N S H transport n c ≡ c
  unfolding clean_steps
  steps-cleaned zero self w = refl
  steps-cleaned (suc n) self w = steps-cleaned n self w

  -- These commands, up to the first that cannot be run.
  run_all : List (List Str) → Exec W (Unit {0})
  run_all [] = pure tt
  run_all (cmd ∷ cmds) = do _ ← H.run_ip cmd; run_all cmds

  steps-routes :
      (cmds : List (List Str)) (self : VpnSession F N S H) (w : W)
      → clean_steps F N S H transport
          (suc (length cmds))
          (record { stage = routes cmds; session = self; world = w })
        ≡ record {
          stage = cleaned;
          session = marked F N S H (run_all cmds w).0 self;
          world = (run_all cmds w).1;
        }
  unfolding clean_steps run_all
  steps-routes [] self w = refl
  steps-routes (cmd ∷ cmds) self w =
      let w' = (H.run_ip cmd w).1 in
      let n = suc (length cmds) in
      let behind : Result Str → Closing F N S H = λ r. record {
        stage = cleaned;
        session = marked F N S H (continue r (λ _. run_all cmds) w').0 self;
        world = (continue r (λ _. run_all cmds) w').1;
      } in
      let start = λ (r : Result Str).
        clean_steps F N S H transport n (after_command F N S H r cmds self w') in
      elim (Result-cases (H.run_ip cmd w).0) [
        | inl (out, e) ↦ ap start e ∙ steps-routes cmds self w' ∙ ap behind (sym e)
        | inr (e, q) ↦
            ap start q ∙ steps-cleaned n (marked F N S H (err e) self) w' ∙ ap behind (sym q)
      ]

  run_all-append :
      (cs ds : List (List Str)) (w : W) → run_all (cs ++ ds) w ≡ (run_all cs >>= λ _. run_all ds) w
  unfolding run_all
  run_all-append [] ds w = refl
  run_all-append (c ∷ cs) ds w = elim (Result-cases (H.run_ip c w).0) [
    | inl (out, e) ↦ rw e (run_all-append cs ds (H.run_ip c w).1)
    | inr (e, q) ↦ rw q refl
  ]

  delete_all-run_all :
      (rs : List (RouteInfo N)) (state : RoutingState N) (w : W)
      → delete_all N H.run_ip rs (state, w)
        ≡ ((run_all (del_commands N rs) w).0, (state, (run_all (del_commands N rs) w).1))
  unfolding delete_all delete_route run_all
  delete_all-run_all [] state w = refl
  delete_all-run_all (r ∷ rs) state w =
      elim (Result-cases (H.run_ip (del_net N r.destination) w).0) [
        | inl (out, e) ↦ rw e (delete_all-run_all rs state _)
        | inr (e, q) ↦ rw q refl
      ]

  restore_gateway-run_all :
      (interface : Str) (gw : Option IpAddr) (state : RoutingState N) (w : W)
      → restore_gateway N H.run_ip interface gw (state, w) ≡ (
        (run_all (restore_via N interface gw) w).0,
        (state, (run_all (restore_via N interface gw) w).1),
      )
  unfolding restore_gateway add_default_route run_all
  restore_gateway-run_all interface none state w = refl
  restore_gateway-run_all interface (some gw) state w =
      elim (Result-cases (H.run_ip (add_default N gw interface) w).0) [
        | inl (out, e) ↦ rw e refl
        | inr (e, q) ↦ rw q refl
      ]

  restore-run_all :
      (o : Option (RouteInfo N)) (state : RoutingState N) (w : W)
      → restore_default N H.run_ip o (state, w)
        ≡ ((run_all (restore_commands N o) w).0, (state, (run_all (restore_commands N o) w).1))
  unfolding restore_default run_all
  restore-run_all none state w = refl
  restore-run_all (some o) state w = restore_gateway-run_all o.interface o.gateway state w

  -- `RoutingManager::cleanup` as these commands.
  cleanup-run_all :
      (state : RoutingState N) (w : W)
      → Routing.cleanup N H.run_ip (state, w) ≡ (
          let (r, w') = run_all (cleanup_commands F N S H state) w in
          (r, (cleared F N S H r state, w')))
  unfolding Routing.cleanup delete_default_route run_all
  cleanup-run_all state w = elim (Result-cases (H.run_ip del_default w).0) [
    | inr (e, q) ↦ rw q refl
    | inl (out, e) ↦
        let w₁ = (H.run_ip del_default w).1 in
        let back = restore_commands N state.original_default_route in
        let w₂ = (run_all back w₁).1 in
        let dels = del_commands N state.exclusion_routes in
        let restore = restore-run_all state.original_default_route state w₁ in
        let rest = run_all-append back dels w₁ in
        elim (Result-cases (run_all back w₁).0) [
          | inr (e₂, q₂) ↦ rw (e, restore, rest, q₂) refl
          | inl (_, q₂) ↦
              let delete = delete_all-run_all state.exclusion_routes state w₂ in
              elim (Result-cases (run_all dels w₂).0) [
                | inr (e₃, q₃) ↦ rw (e, restore, rest, q₂, delete, q₃) refl
                | inl (_, q₃) ↦ rw (e, restore, rest, q₂, delete, q₃) refl
              ]
        ]
  ]

  abbrev hook_calls : List Str → ℕ → ℕ
  hook_calls [] n = n
  hook_calls (cmd ∷ cmds) n = suc (hook_calls cmds n)

  -- How many calls are left at most.
  abbrev pub calls_left : Stage → VpnSession F N S H → ℕ
  calls_left (hooks cmds) self =
      hook_calls cmds (suc (suc (length (cleanup_commands F N S H self.routing))))
  calls_left (routes cmds) self = suc (length cmds)
  calls_left cleaned self = 0

  steps-hooks :
      (cmds : List Str) (n : ℕ) (self : VpnSession F N S H) (w : W)
      → clean_steps F N S H transport
          (hook_calls cmds n)
          (record { stage = hooks cmds; session = self; world = w })
        ≡ clean_steps F N S H transport n (record {
          stage = hooks [];
          session = self;
          world = pre_down_loop F S transport cmds w;
        })
  unfolding clean_steps pre_down_loop
  steps-hooks [] n self w = refl
  steps-hooks (cmd ∷ cmds) n self w = steps-hooks cmds n self (exec F S transport cmd w).1

  run_pre_down-loop :
      (cmds : List Str) (w : W)
      → (if is_empty cmds then w else pre_down_loop F S transport cmds w)
        ≡ pre_down_loop F S transport cmds w
  unfolding pre_down_loop
  run_pre_down-loop [] w = refl
  run_pre_down-loop (cmd ∷ cmds) w = refl

  tear_down-run_all :
      (config : VpnConfig) (self : VpnSession F N S H) (w : W)
      → tear_down F N S H transport config self w ≡ (
          let w₁ = pre_down_loop F S transport config.pre_down w in
          let (r, w₂) =
            run_all (cleanup_commands F N S H self.routing) (close S self.agent.writer w₁).1 in
          (marked F N S H r self, w₂))
  unfolding tear_down run_pre_down
  tear_down-run_all config self w =
      let closed = λ (v : W). (close S self.agent.writer v).1 in
      let after : Result (Unit {0}) × (RoutingState N × W) → VpnSession F N S H × W =
        λ x. (record self { routing = x.1.0; cleaned_up = true }, x.1.1) in
      ap (λ v. after (Routing.cleanup N H.run_ip (self.routing, closed v)))
        (run_pre_down-loop config.pre_down w)
      ∙ ap after
          (cleanup-run_all self.routing (closed (pre_down_loop F S transport config.pre_down w)))

  -- The calls of a cleanup that nothing disturbs: they end, and have done what `cleanup` does.
  pub clean_steps-cleanup :
      (config : VpnConfig) (self : VpnSession F N S H) (w : W)
      → self.cleaned_up ≡ false
      → let start : Closing F N S H = record {
        stage = hooks config.pre_down;
        session = self;
        world = w;
      } in
        let end = clean_steps F N S H transport (calls_left start.stage self) start in
        (end.stage ≡ cleaned)
        × (cleanup F N S H transport config self w ≡ (ok tt, end.session, end.world))
  unfolding clean_steps
  clean_steps-cleanup config self w open' =
      let commands = cleanup_commands F N S H self.routing in
      let w₁ = pre_down_loop F S transport config.pre_down w in
      let ran =
        steps-hooks config.pre_down (suc (suc (length commands))) self w
        ∙ steps-routes commands self (close S self.agent.writer w₁).1 in
      (
        ap (λ c. c.stage) ran,
        cleanup_open F N S H transport config self w open'
            ∙ ap (λ x. (ok tt, x.0, x.1)) (tear_down-run_all config self w)
            ∙ ap (λ c. (ok tt, c.session, c.world)) (sym ran),
      )

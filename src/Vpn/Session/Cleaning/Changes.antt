-- ===== src/Vpn/Session/Cleaning/Changes.antt =====
-- What the calls of a cleanup and the rounds of detached tasks beside it do to the routing table.
use x2ssh.Base.{
  ℕ, suc, ◌-◌, ◌≤◌, ◌<◌, ◌≡◌, refl, sym, ap, subst, ◌∙◌, List, [], ◌∷◌, map, length, arith, Bool,
  true, false, Str, Result-cases, inl, inr,
}
use x2ssh.Net.{IpNets}
use x2ssh.Ssh.{Ssh}
use x2ssh.TunRs.{Tun}
use x2ssh.Retry.Float.{F64}
use x2ssh.Transport.{Transport}
use x2ssh.Vpn.Agent.{send_packet}
use x2ssh.Vpn.Forward.{tun_to_agent}
use x2ssh.Vpn.Forward.Tasks.{Turn, up, down}
use x2ssh.Vpn.Keeps.{Unseen, exec-Keeps, close-Keeps, send_packet-Keeps}
use x2ssh.Vpn.Routing.Commands.{Spawns}
use x2ssh.Vpn.Routing.Table.{Change, words, changed, changes, RouteTable}
use x2ssh.Vpn.Session.{Host, VpnSession}
use x2ssh.Vpn.Session.Cleaning.{
  Stage, hooks, routes, cleaned, Closing, cleanup_commands, after_command, clean, Detached, goes_up,
  detached_turn, Move, cleans, goes_on, moves,
}
use x2ssh.Vpn.Session.Cleaning.Steps.{calls_left}

-- How many calls `cleanup` makes in these moves.
abbrev pub cleaning_moves : List Move → ℕ
cleaning_moves [] = 0
cleaning_moves (cleans ∷ ms) = suc (cleaning_moves ms)
cleaning_moves (goes_on t ∷ ms) = cleaning_moves ms

module _ {W : Type 0} (S : Ssh W) (T : Tun) {V : Type 0} (view : W → V) (U : Unseen S view)
    (agent : S.Channel) where
  pub tun_to_agent-view :
      (device : T.State) (w : W) → view (tun_to_agent S T 1 agent device w).2 ≡ view w
  unfolding tun_to_agent
  tun_to_agent-view device w = elim (Result-cases (T.recv 2048 device).0) [
    | inr (e, q) ↦ rw (q, tun_to_agent) refl
    | inl (p, q) ↦
        let same = (send_packet-Keeps S view U agent p).at w in
        elim (Result-cases (send_packet S agent p w).0) [
          | inr (e, q₂) ↦ rw (q, tun_to_agent, q₂) same
          | inl (_, q₂) ↦ rw (q, tun_to_agent, q₂) same
        ]
  ]

  goes_up-view : (b : Bool) (d : Detached S T) (w : W) → view (goes_up S T agent b d w).1 ≡ view w
  unfolding goes_up
  goes_up-view true d w = refl
  goes_up-view false d w = tun_to_agent-view d.device w

  pub detached_turn-view :
      (t : Turn) (d : Detached S T) (w : W) → view (detached_turn S T agent t d w).1 ≡ view w
  unfolding detached_turn
  detached_turn-view up d w = goes_up-view d.up_over d w
  detached_turn-view down d w = refl

module _ (F : F64) (N : IpNets) {W : Type 0} (S : Ssh W) (H : Host W)
    (transport : Transport F S) where
  -- The changes of the table that are left.
  abbrev pub Left : Stage → VpnSession F N S H → List Change → Type 0
  Left (hooks cmds) self ds = map words ds ≡ cleanup_commands F N S H self.routing
  Left (routes cmds) self ds = map words ds ≡ cmds
  Left cleaned self ds = ds ≡ []

  module _ (sp : Spawns H.run_ip) (R : RouteTable H.run_ip)
      (U : (x : Str) → Unseen S (λ w. R.lookup w x)) where
    -- What a call does to the table and to what is left.
    abbrev Cleans : Closing F N S H → List Change → W → ℕ → Type 0
    Cleans c ds w n =
        (ds' : List Change) × Left c.stage c.session ds'
        × ((x : Str)
            → changes R.takes ds' x (R.lookup c.world x) ≡ changes R.takes ds x (R.lookup w x))
        × (calls_left F N S H transport c.stage c.session ≡ n - 1)

    clean-Cleans :
        (stage : Stage) (self : VpnSession F N S H) (w : W) (ds : List Change)
        → Left stage self ds
        → Cleans
            (clean F N S H transport (record { stage = stage; session = self; world = w }))
            ds
            w
            (calls_left F N S H transport stage self)
    unfolding clean
    clean-Cleans (hooks (cmd ∷ cmds)) self w ds left = (
      ds,
      left,
      λ x.
          ap (changes R.takes ds x) ((exec-Keeps S (λ v. R.lookup v x) (U x) F transport cmd).at w),
      omega arith,
    )
    clean-Cleans (hooks []) self w ds left = (
      ds,
      left,
      λ x.
          ap (changes R.takes ds x)
            ((close-Keeps S (λ v. R.lookup v x) (U x) self.agent.writer).at w),
      omega arith,
    )
    clean-Cleans (routes []) self w [] left = ([], refl, λ x. refl, omega arith)
    clean-Cleans (routes []) self w (d ∷ ds) left = cc
    clean-Cleans (routes (cmd ∷ cmds)) self w [] left = cc
    clean-Cleans (routes (cmd ∷ cmds)) self w (d ∷ ds) left =
        let this : words d ≡ cmd = cc in
        let rest : map words ds ≡ cmds = cc in
        let (out, e) = sp cmd w in
        let w' = (H.run_ip cmd w).1 in
        let step = λ (x : Str).
          subst (λ c. R.lookup (H.run_ip c w).1 x ≡ changed R.takes d x (R.lookup w x)) this
            (R.lookup-words d w x) in
        subst
          (λ r. Cleans (after_command F N S H r cmds self w') (d ∷ ds) w (suc (suc (length cmds))))
          (sym e) (ds, rest, λ x. ap (changes R.takes ds x) (step x), omega arith)
    clean-Cleans cleaned self w ds left = (ds, left, λ x. refl, omega arith)

    hooks-calls :
        (cmds : List Str) (self : VpnSession F N S H)
        → 0 < calls_left F N S H transport (hooks cmds) self
    hooks-calls [] self = omega arith
    hooks-calls (cmd ∷ cmds) self = omega arith

    no_calls :
        (stage : Stage) (self : VpnSession F N S H) (ds : List Change)
        → Left stage self ds
        → calls_left F N S H transport stage self ≤ 0
        → (stage ≡ cleaned) × (ds ≡ [])
    no_calls (hooks cmds) self ds left none' = absurd (omega (arith, hooks-calls cmds self))
    no_calls (routes cmds) self ds left none' = absurd (omega arith)
    no_calls cleaned self ds left none' = (refl, left)

    pub moves-changes :
        (T : Tun) (ms : List Move) (c : Closing F N S H) (d : Detached S T) (ds : List Change)
        → Left c.stage c.session ds
        → calls_left F N S H transport c.stage c.session ≤ cleaning_moves ms
        → let c' = (moves F N S H T transport ms (c, d)).0 in
          (c'.stage ≡ cleaned)
          × ((x : Str) → R.lookup c'.world x ≡ changes R.takes ds x (R.lookup c.world x))
    unfolding moves
    moves-changes T [] c d ds left enough =
        let (over', none_left) = no_calls c.stage c.session ds left enough in
        (over', λ x. ap (λ es. changes R.takes es x (R.lookup c.world x)) (sym none_left))
    moves-changes T (cleans ∷ ms) c d ds left enough =
        let (ds', left', same, fewer) = clean-Cleans c.stage c.session c.world ds left in
        let (over', looks) =
          moves-changes T ms (clean F N S H transport c) d ds' left' (omega arith) in
        (over', λ x. looks x ∙ same x)
    moves-changes T (goes_on t ∷ ms) c d ds left enough =
        let (d', w) = detached_turn S T c.session.agent.writer t d c.world in
        let (over', looks) = moves-changes T ms (record c { world = w }) d' ds left enough in
        (
          over',
          λ x.
              looks x
              ∙ ap (changes R.takes ds x) (
                  detached_turn-view S T (λ v. R.lookup v x) (U x) c.session.agent.writer t d
                    c.world),
        )

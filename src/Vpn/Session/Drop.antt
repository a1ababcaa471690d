-- ===== src/Vpn/Session/Drop.antt =====
-- x2ssh/src/vpn/session.rs: `Drop` of a session, which puts the routes back if `cleanup` did not.
use x2ssh.Base.{◌∷◌, ◌++◌, ◌≡◌, ap, true, false, Option, some}
use x2ssh.Base.{if◌then◌else◌, ok, err, Exec}
use x2ssh.Net.{IpNets}
use x2ssh.Ssh.{Ssh}
use x2ssh.Retry.Float.{F64}
use x2ssh.Transport.{Transport}
use x2ssh.Config.{VpnConfig}
use x2ssh.Vpn.Routing
use x2ssh.Vpn.Routing.Commands.{del_default, issue, Spawns, restore_commands, del_commands}
use x2ssh.Vpn.Routing.Setup.{cleanup_lem}
use x2ssh.Vpn.Session.{Host, VpnSession, cleanup}
use x2ssh.Vpn.Session.Lifecycle.{cleanup_done, cleanup-cleaned_up}

-- tokio's runtime: `Handle::try_current`, and `Handle::block_on` of a future with no result, where
-- `none` stands for a panic.
pub record Runtime (W : Type 0) : Type 1 where
  pub Handle : Type 0
  pub try_current : Exec W Handle
  pub block_on : Handle → (W → W) → W → Option (Unit {0}) × W

module _ (F : F64) (N : IpNets) {W : Type 0} (S : Ssh W) (H : Host W) (M : Runtime W) where
  unfoldable pub drop : VpnSession F N S H → W → Option (Unit {0}) × W
  drop self w =
      let (current, w') = M.try_current w in
      let dropped : Option (Unit {0}) × W = elim current [
        | ok rt ↦ M.block_on rt (λ v. (Routing.cleanup N H.run_ip (self.routing, v)).1.1) w'
        | err e ↦ (some tt, w')
      ] in
      if self.cleaned_up then (some tt, w) else dropped

  drop_done :
      (self : VpnSession F N S H) (w : W) → self.cleaned_up ≡ true → drop self w ≡ (some tt, w)
  unfolding drop
  drop_done self w h = rw h

  module _ (transport : Transport F S) (config : VpnConfig) where
    -- Behind a `cleanup`, neither a second one nor the drop of the session does anything: the
    -- second returns Ok, the drop does not panic, and the session and the world stay as they are.
    pub cleanup-idle :
        (self : VpnSession F N S H) (w : W)
        → let after = cleanup F N S H transport config self w in
          (cleanup F N S H transport config after.1 after.2 ≡ (ok tt, after.1, after.2))
          × (drop after.1 after.2 ≡ (some tt, after.2))
    cleanup-idle self w =
        let done = cleanup-cleaned_up F N S H transport config self w in
        (cleanup_done F N S H transport config _ _ done, drop_done _ _ done)

  -- A session that is dropped before its cleanup, by a thread with a runtime that runs the future:
  -- the default route and the exclusion routes are put back, and nothing else is done. The hooks do
  -- not run and the agent is not closed.
  pub drop_open :
      (self : VpnSession F N S H) (w : W) (rt : M.Handle)
      → Spawns H.run_ip
      → self.cleaned_up ≡ false
      → M.try_current w ≡ (ok rt, w)
      → ((future : W → W) → M.block_on rt future w ≡ (some tt, future w))
      → drop self w ≡ (
        some tt,
        issue H.run_ip
            (del_default
              ∷ (restore_commands N (self.routing).original_default_route
                  ++ del_commands N (self.routing).exclusion_routes))
            w,
      )
  unfolding drop
  drop_open self w rt sp h current runs =
      rw (h, ap (λ x. x.0) current, ap (λ x. x.1) current, runs)
        (ap (λ x. (some tt, x.1.1)) (cleanup_lem N H.run_ip sp self.routing w))

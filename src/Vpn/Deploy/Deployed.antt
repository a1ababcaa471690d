-- ===== src/Vpn/Deploy/Deployed.antt =====
-- When `deploy` succeeds.
use x2ssh.Base.{
  ℕ, ◌≡◌, refl, sym, ap, ◌∙◌, ◌↔◌, List, codes, ok, err, >>=-eq-ok, pure, raise, deploy_failed,
  ◌==◌, if◌then◌else◌, Bool-cases, inl, inr, ==_iff, suc,
}
use x2ssh.Ssh.{Ssh}
use x2ssh.Retry.Float.{F64}
use x2ssh.Transport.{Transport, open_session_channel}
use x2ssh.Transport.Commands.{last_status, suc-ne-zero}
use x2ssh.Vpn.Deploy.{deploy_exit, deploy}
use x2ssh.Vpn.Deploy.Exit.{before_eof, deploy_exit_lem}

module _ (F : F64) {W : Type 0} (S : Ssh W) (agent_binary : List ℕ)
    (transport : Transport F S) where
  -- A channel on which the whole binary was sent to `cat`, and then the end of the file, and whose
  -- last exit status before the server's end of file is a number.
  abbrev pub Copied : ℕ → W → W → Type 0
  Copied status w w' =
      (channel : S.Channel) × (w₁ : W) × (w₂ : W) × (w₃ : W) × (S.channel_open_session
          transport.session w
        ≡ (ok channel, w₁))
      × (S.exec channel (codes "cat > /tmp/x2ssh-agent && chmod +x /tmp/x2ssh-agent") w₁
          ≡ (ok tt, w₂))
      × (S.send_data channel agent_binary w₂ ≡ (ok tt, w₃))
      × (S.send_eof channel w₃ ≡ (ok tt, w'))
      × (last_status 0 (before_eof (S.inbox channel w')) ≡ status)

  judged-ok :
      (n : ℕ) (w w' : W)
      → (if n == 0 then pure tt else raise (deploy_failed n)) w ≡ (ok tt, w')
      → (n ≡ 0) × (w ≡ w')
  judged-ok n w w' h = elim (Bool-cases (n == 0)) [
    | inl q ↦ let e = rw q at h in ((==_iff n 0).0 q, ap (λ r. r.1) e)
    | inr q ↦ let e = rw q at h in cc
  ]

  deploy-Copied : (w w' : W) → deploy F S agent_binary transport w ≡ (ok tt, w') → Copied 0 w w'
  unfolding deploy open_session_channel
  deploy-Copied w w' h =
      let (channel, w₁, e₁, h₁) = >>=-eq-ok (open_session_channel F S transport) _ w h in
      let (c, v, opened, given) =
        >>=-eq-ok (S.channel_open_session transport.session) (λ c. pure c) w e₁ in
      let (_, w₂, e₂, h₂) = >>=-eq-ok (S.exec channel _) _ w₁ h₁ in
      let (_, w₃, e₃, h₃) = >>=-eq-ok (S.send_data channel agent_binary) _ w₂ h₂ in
      let (_, w₄, e₄, h₄) = >>=-eq-ok (S.send_eof channel) _ w₃ h₃ in
      let (zero', end) = judged-ok (deploy_exit (S.inbox channel w₄) 0) w₄ w' h₄ in
      (
        channel,
        w₁,
        w₂,
        w₃,
        opened ∙ given,
        e₂,
        e₃,
        e₄ ∙ ap (λ x. (ok tt, x)) end,
        sym (deploy_exit_lem (S.inbox channel w') 0)
            ∙ ap (λ x. deploy_exit (S.inbox channel x) 0) (sym end)
            ∙ zero',
      )

  deploy-status :
      (status : ℕ) (w w' : W)
      → Copied status w w'
      → deploy F S agent_binary transport w
        ≡ (if status == 0 then pure tt else raise (deploy_failed status)) w'
  unfolding deploy open_session_channel
  deploy-status status w w' (channel, w₁, w₂, w₃, e₁, e₂, e₃, e₄, last) =
      rw (e₁, e₂, e₃, e₄, deploy_exit_lem (S.inbox channel w') 0, last) refl

  -- `deploy` succeeds exactly if a session channel could be opened, the copying command started,
  -- the whole binary and then the end of the file sent, and the last exit status that the server
  -- has sent before its own end of file is 0, or there is none; it does nothing else to the
  -- outside. With another status there, it fails with this one.
  pub deploy_lem :
      (w w' : W)
      → (deploy F S agent_binary transport w ≡ (ok tt, w') ↔ Copied 0 w w')
        × ((n : ℕ)
            → Copied (suc n) w w'
            → deploy F S agent_binary transport w ≡ (err (deploy_failed (suc n)), w'))
  deploy_lem w w' = (
    (deploy-Copied w w', deploy-status 0 w w'),
    λ n copied. deploy-status (suc n) w w' copied ∙ rw (suc-ne-zero n) refl,
  )

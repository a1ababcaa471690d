-- ===== src/Examples/Agent.antt =====
-- The agent's start.
use x2ssh.Base.{ℕ, ◌+◌, ◌≡◌, refl, arith, [], ◌∷◌, Str, codes, decimal, Result, ok}
use x2ssh.AgentMain.Start.{main_setup}
use x2ssh.AgentMain.Arguments.{main_setup-decimal}

-- A device is what it was built from.
abbrev build : Str → ℕ → ℕ → ℕ → Result (Str × ℕ × ℕ) × ℕ
build addr prefix mtu w = (ok (addr, prefix, mtu), w + 1)

main_setup-decimal_example :
    main_setup build (codes "x2ssh-agent" ∷ codes "--ip" ∷ codes "10.8.0.1/24" ∷ []) 0
    ≡ (ok (codes "10.8.0.1", 24, 1400), 1)
unfolding decimal
main_setup-decimal_example =
    main_setup-decimal build (codes "x2ssh-agent") (codes "10.8.0.1") 24 0
      (refl, (refl, (refl, (refl, (refl, (refl, (refl, (refl, tt)))))))) (omega arith)

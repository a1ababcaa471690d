-- ===== src/Base/Turns.antt =====
-- Tasks under `select!`: they take turns in any order until one of them gives a result.
use mathlib.Core.Path.{◌≡◌, refl, sym, ap, ◌∙◌}
use mathlib.Core.Logic.{inl, inr}
use mathlib.Core.Option.{Option, none, some}
use mathlib.Core.List.{List, [], ◌∷◌}
use x2ssh.Base.Tests.{Option-cases}

module _ {A T R : Type 0} (result : A → Option R) (take_turn : T → A → A) where
  abbrev pub unless_done : Option R → A → A → A
  unless_done none s s' = s'
  unless_done (some r) s s' = s

  unfoldable pub run_turns : List T → A → A
  run_turns [] s = s
  run_turns (t ∷ ts) s = run_turns ts (unless_done (result s) s (take_turn t s))

  run_turns_next :
      (t : T) (ts : List T) (s : A)
      → result s ≡ none
      → run_turns (t ∷ ts) s ≡ run_turns ts (take_turn t s)
  unfolding run_turns
  run_turns_next t ts s h = ap (λ r. run_turns ts (unless_done r s (take_turn t s))) h

  -- What has its result stays as it is.
  pub run_turns_done : (ts : List T) (s : A) (r : R) → result s ≡ some r → run_turns ts s ≡ s
  unfolding run_turns
  run_turns_done [] s r h = refl
  run_turns_done (t ∷ ts) s r h =
      ap (λ x. run_turns ts (unless_done x s (take_turn t s))) h ∙ run_turns_done ts s r h

  -- What still runs at the end has run all the time.
  result-none : (ts : List T) (s : A) → result (run_turns ts s) ≡ none → result s ≡ none
  result-none ts s h = elim (Option-cases (result s)) [
    | inl going ↦ going
    | inr (r, done) ↦
        let kept = ap result (run_turns_done ts s r done) in let never = sym h ∙ kept ∙ done in cc
  ]

  -- A first turn, when the last one leaves it running.
  pub run_turns-step :
      (t : T) (ts : List T) (s : A)
      → result (run_turns (t ∷ ts) s) ≡ none
      → (run_turns (t ∷ ts) s ≡ run_turns ts (take_turn t s))
        × (result (run_turns ts (take_turn t s)) ≡ none)
        × (result (take_turn t s) ≡ none)
  run_turns-step t ts s h =
      let step = run_turns_next t ts s (result-none (t ∷ ts) s h) in
      let rest : result (run_turns ts (take_turn t s)) ≡ none = sym (ap result step) ∙ h in
      (step, rest, result-none ts (take_turn t s) rest)

  unless_done-holds {ℓ} :
      (Q : A → Type ℓ) (o : Option R) (s s' : A) → Q s → (o ≡ none → Q s') → Q (unless_done o s s')
  unless_done-holds Q none s s' h h' = h' refl
  unless_done-holds Q (some r) s s' h h' = h

  -- What every turn of a running state keeps, all the turns keep.
  pub run_turns-holds {ℓ} :
      (Q : A → Type ℓ)
      → ((t : T) (s : A) → result s ≡ none → Q s → Q (take_turn t s))
      → (ts : List T) (s : A) → Q s
      → Q (run_turns ts s)
  unfolding run_turns
  run_turns-holds Q keep [] s h = h
  run_turns-holds Q keep (t ∷ ts) s h =
      run_turns-holds Q keep ts _
        (unless_done-holds Q (result s) s _ h (λ running. keep t s running h))

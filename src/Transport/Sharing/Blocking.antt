-- ===== src/Transport/Sharing/Blocking.antt =====
-- A forwarded connection over which the server sends nothing keeps every other task out.
use x2ssh.Base.{
  ℕ, ◌≡◌, refl, sym, ap, ◌∙◌, subst, List, [], ◌∷◌, All, true, false, Bool-cases, if-holds,
}
use x2ssh.Base.{some, ◌==◌, ==_iff, inl, inr}
use x2ssh.Net.{IpNets}
use x2ssh.Proto.Stream.{AsyncWrite}
use x2ssh.Ssh.{Ssh}
use x2ssh.Retry.Float.{F64}
use x2ssh.Transport.Relay.{ReadHalf, Event, from_client, from_channel, Relay}
use x2ssh.Transport.Relay.Untouched.{forwarding-step}
use x2ssh.Transport.Sharing.{
  Action, grant, go_on, update, Task, waits, relays, done, Shared, granted, relayed, goes_on, act,
  acts,
}
use x2ssh.Transport.Sharing.Exclusion.{Relays, Exclusive, update_other, update_self}

-- Nothing comes from the channel of task `i`.
abbrev pub Silent : ℕ → Action → Type 0
Silent i (grant j) = Unit {0}
Silent i (go_on j from_client) = Unit {0}
Silent i (go_on j from_channel) = (i == j) ≡ false

module _ (F : F64) (N : IpNets) {W : Type 0} (S : Ssh W) (C : ReadHalf) (T : AsyncWrite)
    (i : ℕ) where
  -- The task copies, and its loop over the messages has not ended.
  abbrev pub Copying : Task F N S C T → Type 0
  Copying (relays channel r) = r.forwarding ≡ true
  Copying (waits call) = ⊥
  Copying done = ⊥

  -- Task `i` copies and holds the lock; all others, and the session, are as they were.
  abbrev Holds : Shared F N S C T → Shared F N S C T → Type 0
  Holds s₀ s =
      (s.guard ≡ some i)
      × Copying (s.tasks i)
      × ((j : ℕ) → (i == j) ≡ false → s.tasks j ≡ s₀.tasks j)
      × (s.transport ≡ s₀.transport)

  relayed-Holds :
      (s₀ s : Shared F N S C T) (channel : S.Channel) (r : Relay S C T)
      → r.forwarding ≡ true
      → Holds s₀ s
      → Holds s₀ (relayed F N S C T i channel r s)
  unfolding relayed
  relayed-Holds s₀ s channel r on (guard, _, others, transport) =
      if-holds (Holds s₀) r.forwarding _ _
        (λ _. (
          guard,
          subst Copying (sym (update_self F N S C T s.tasks i (relays channel r))) on,
          λ j other. update_other F N S C T s.tasks i j (relays channel r) other ∙ others j other,
          transport,
        ))
        (λ off. let never = sym on ∙ off in cc)

  own-Holds :
      (s₀ s : Shared F N S C T) (task : Task F N S C T)
      → Copying task
      → Holds s₀ s
      → Holds s₀ (goes_on F N S C T i from_client task s)
  unfolding goes_on
  own-Holds s₀ s (relays channel r) on h =
      relayed-Holds s₀ s channel _
        (forwarding-step S C T channel (record r { world = s.world }) ∙ on) h
  own-Holds s₀ s (waits call) on h = elim on [ ]
  own-Holds s₀ s done on h = elim on [ ]

  idle_goes_on :
      (j : ℕ) (e : Event) (task : Task F N S C T) (s : Shared F N S C T)
      → (Relays F N S C T task → ⊥)
      → goes_on F N S C T j e task s ≡ s
  unfolding goes_on
  idle_goes_on j e (relays channel r) s idle = absurd (idle tt)
  idle_goes_on j e (waits call) s idle = refl
  idle_goes_on j e done s idle = refl

  module _ (s₀ : Shared F N S C T)
      (idle : (j : ℕ) → (i == j) ≡ false → Relays F N S C T (s₀.tasks j) → ⊥) where
    turn-Holds :
        (j : ℕ) (e : Event) (s : Shared F N S C T)
        → Silent i (go_on j e)
        → (i == j) ≡ true
        → Holds s₀ s
        → Holds s₀ (goes_on F N S C T j e (s.tasks j) s)
    turn-Holds j from_client s silent same h =
        subst (λ k. Holds s₀ (goes_on F N S C T k from_client (s.tasks k) s)) ((==_iff i j).0 same)
          (own-Holds s₀ s (s.tasks i) h.1 h)
    turn-Holds j from_channel s silent same h = let never = sym silent ∙ same in cc

    act-Holds :
        (a : Action) (s : Shared F N S C T) → Silent i a → Holds s₀ s → Holds s₀ (act F N S C T a s)
    unfolding act granted
    act-Holds (grant j) s silent h =
        subst (Holds s₀) (sym (ap (λ g. granted F N S C T j g (s.tasks j) s) h.0)) h
    act-Holds (go_on j e) s silent h = elim (Bool-cases (i == j)) [
      | inl same ↦ turn-Holds j e s silent same h
      | inr other ↦
          let still = subst (λ t. Relays F N S C T t → ⊥) (sym (h.2 j other)) (idle j other) in
          subst (Holds s₀) (sym (idle_goes_on j e (s.tasks j) s still)) h
    ]

    acts-Holds :
        (actions : List Action) (s : Shared F N S C T)
        → All (Silent i) actions
        → Holds s₀ s
        → Holds s₀ (acts F N S C T actions s)
    unfolding acts
    acts-Holds [] s silent h = h
    acts-Holds (a ∷ rest) s (quiet, silent) h =
        acts-Holds rest (act F N S C T a s) silent (act-Holds a s quiet h)

  -- The same, with the other tasks in one equation.
  abbrev pub StandsStill : Shared F N S C T → Shared F N S C T → Type 0
  StandsStill s₀ s =
      (s.guard ≡ some i)
      × Copying (s.tasks i)
      × ((j : ℕ) → s.tasks j ≡ update s₀.tasks i (s.tasks i) j)
      × (s.transport ≡ s₀.transport)

  Holds-StandsStill : (s₀ s : Shared F N S C T) → Holds s₀ s → StandsStill s₀ s
  Holds-StandsStill s₀ s (guard, copying, others, transport) = (
    guard,
    copying,
    λ j. elim (Bool-cases (i == j)) [
      | inl same ↦ rw same (ap s.tasks (sym ((==_iff i j).0 same)))
      | inr other ↦ rw other (others j other)
    ],
    transport,
  )

  -- While task `i` forwards a connection over whose channel nothing comes, no other task gets on,
  -- whatever it waits for and however often it is scheduled: not another connection, not the health
  -- check, and not the new session of a reconnection.
  pub acts-Silent :
      (actions : List Action) (s : Shared F N S C T)
      → Exclusive F N S C T s
      → s.guard ≡ some i
      → Copying (s.tasks i)
      → All (Silent i) actions
      → StandsStill s (acts F N S C T actions s)
  acts-Silent actions s exclusive guard copying silent =
      Holds-StandsStill s (acts F N S C T actions s) (
        acts-Holds s
          (λ j other now.
            let both = sym guard ∙ exclusive j now in
            let same : i ≡ j = cc in
            let equal = (==_iff i j).1 same in let never = sym other ∙ equal in cc)
          actions s silent (guard, copying, λ j other. refl, refl))

-- ===== src/Transport/Sharing/Exclusion.antt =====
-- Who holds the session, and what others can do meanwhile.
use x2ssh.Base.{ℕ, ◌≡◌, refl, sym, ap, ◌∙◌, List, [], ◌∷◌, true, false, Bool-cases, if-holds}
use x2ssh.Base.{Option, none, some, ◌==◌, ==_iff, Result-cases, inl, inr}
use x2ssh.Net.{IpNets}
use x2ssh.Proto.Stream.{AsyncWrite}
use x2ssh.Ssh.{Ssh}
use x2ssh.Retry.Float.{F64}
use x2ssh.Transport.Relay.{ReadHalf, Event, Relay, open_direct}
use x2ssh.Transport.Sharing.{
  Action, grant, go_on, update, Call, forwards, execs, checks, opens, stores, Task, waits, relays,
  done, Shared, after_open, finish_with, begin, granted, relayed, goes_on, act, acts,
}

module _ (F : F64) (N : IpNets) {W : Type 0} (S : Ssh W) (C : ReadHalf) (T : AsyncWrite) where
  abbrev pub Relays : Task F N S C T → Type 0
  Relays (relays channel r) = Unit {0}
  Relays (waits call) = ⊥
  Relays done = ⊥

  -- A task that copies holds the lock.
  abbrev pub Exclusive : Shared F N S C T → Type 0
  Exclusive s = (j : ℕ) → Relays (s.tasks j) → s.guard ≡ some j

  pub update_other :
      (tasks : ℕ → Task F N S C T) (i j : ℕ) (t : Task F N S C T)
      → (i == j) ≡ false
      → update tasks i t j ≡ tasks j
  update_other tasks i j t h = rw h refl

  pub update_self :
      (tasks : ℕ → Task F N S C T) (i : ℕ) (t : Task F N S C T) → update tasks i t i ≡ t
  update_self tasks i t = let same : (i == i) ≡ true = (==_iff i i).1 refl in rw same refl

  Relays-update_done :
      (tasks : ℕ → Task F N S C T) (i j : ℕ)
      → Relays (update tasks i done j)
      → ((i == j) ≡ false) × Relays (tasks j)
  Relays-update_done tasks i j h = elim (Bool-cases (i == j)) [
    | inl same ↦ elim (rw same at h) [ ]
    | inr other ↦ (other, rw other at h)
  ]

  done-Exclusive :
      (i : ℕ) (s : Shared F N S C T)
      → Exclusive s
      → (j : ℕ) → Relays (update s.tasks i done j)
      → s.guard ≡ some j
  done-Exclusive i s h j now = h j (Relays-update_done s.tasks i j now).1

  begin-Exclusive :
      (i : ℕ) (call : Call F N S C T) (s : Shared F N S C T)
      → s.guard ≡ none
      → Exclusive s
      → Exclusive (begin F N S C T i call s)
  unfolding begin after_open finish_with
  begin-Exclusive i (forwards to rx tx) s free h =
      elim (Result-cases (open_direct S C T F N s.transport to s.world).0) [
        | inl (channel, q) ↦
            rw (q, after_open)
              (λ j now. elim (Bool-cases (i == j)) [
                | inl same ↦ ap some ((==_iff i j).0 same)
                | inr other ↦ let held = h j (rw other at now) in let never = sym free ∙ held in cc
              ])
        | inr (e, q) ↦ rw (q, after_open) (done-Exclusive i s h)
      ]
  begin-Exclusive i (execs command) s free h = done-Exclusive i s h
  begin-Exclusive i checks s free h = done-Exclusive i s h
  begin-Exclusive i opens s free h = done-Exclusive i s h
  begin-Exclusive i (stores session) s free h = done-Exclusive i s h

  granted-Exclusive :
      (i : ℕ) (o : Option ℕ) (task : Task F N S C T) (s : Shared F N S C T)
      → s.guard ≡ o
      → Exclusive s
      → Exclusive (granted F N S C T i o task s)
  unfolding granted
  granted-Exclusive i none (waits call) s free h = begin-Exclusive i call s free h
  granted-Exclusive i none (relays channel r) s free h = h
  granted-Exclusive i none done s free h = h
  granted-Exclusive i (some j) task s held h = h

  relayed-Exclusive :
      (i : ℕ) (channel : S.Channel) (r : Relay S C T) (s : Shared F N S C T)
      → s.guard ≡ some i
      → Exclusive s
      → Exclusive (relayed F N S C T i channel r s)
  unfolding relayed
  relayed-Exclusive i channel r s held h =
      if-holds Exclusive r.forwarding _ _
        (λ _ j now. elim (Bool-cases (i == j)) [
          | inl same ↦ held ∙ ap some ((==_iff i j).0 same)
          | inr other ↦ h j (rw other at now)
        ])
        (λ _ j now.
          let (other, still) = Relays-update_done s.tasks i j now in
          let both = sym held ∙ h j still in
          let same : i ≡ j = cc in let yes' = (==_iff i j).1 same in cc)

  goes_on-Exclusive :
      (i : ℕ) (e : Event) (task : Task F N S C T) (s : Shared F N S C T)
      → (Relays task → s.guard ≡ some i)
      → Exclusive s
      → Exclusive (goes_on F N S C T i e task s)
  unfolding goes_on
  goes_on-Exclusive i e (relays channel r) s held h = relayed-Exclusive i channel _ s (held tt) h
  goes_on-Exclusive i e (waits call) s held h = h
  goes_on-Exclusive i e done s held h = h

  act-Exclusive : (a : Action) (s : Shared F N S C T) → Exclusive s → Exclusive (act F N S C T a s)
  unfolding act
  act-Exclusive (grant i) s h = granted-Exclusive i s.guard (s.tasks i) s refl h
  act-Exclusive (go_on i e) s h = goes_on-Exclusive i e (s.tasks i) s (h i) h

  -- Whatever the tasks do and in whatever order, a connection that is being forwarded holds the
  -- session lock, so that no two are forwarded at once.
  pub acts-Exclusive :
      (actions : List Action) (s : Shared F N S C T)
      → Exclusive s
      → Exclusive (acts F N S C T actions s)
  unfolding acts
  acts-Exclusive [] s h = h
  acts-Exclusive (a ∷ rest) s h = acts-Exclusive rest (act F N S C T a s) (act-Exclusive a s h)

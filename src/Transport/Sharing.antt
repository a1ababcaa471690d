-- ===== src/Transport/Sharing.antt =====
-- x2ssh/src/transport.rs: the session mutex and the tasks that share it. Each method takes the lock
-- once and keeps the guard until it returns, so `forward` keeps it while it copies. A method that
-- does not copy has the world to itself for as long as it holds the lock, and is one action.
pub mod Exclusion
pub mod Blocking
use x2ssh.Base.{ℕ, Bool, true, false, Option, none, some, Str, ◌==◌, if◌then◌else◌, Result, ok, err}
use x2ssh.Base.{Exec, List, [], ◌∷◌}
use x2ssh.Net.{IpAddr, IpNets}
use x2ssh.Proto.Stream.{AsyncWrite}
use x2ssh.Ssh.{Ssh}
use x2ssh.Retry.Float.{F64}
use x2ssh.Transport.{Transport, exec, check_alive, open_session_channel}
use x2ssh.Transport.Relay.{ReadHalf, Event, Relay, step, open_direct, opened_relay}

-- What a task does next: it waits for the lock to be granted, or its relay goes on.
pub data Action : Type 0 where
  grant : ℕ → Action
  go_on : ℕ → Event → Action

-- `tasks` at an index, changed.
abbrev pub update {ℓ} : {A : Type ℓ} → (ℕ → A) → ℕ → A → ℕ → A
update f i a j = if i == j then a else f j

module _ (F : F64) (N : IpNets) {W : Type 0} (S : Ssh W) (C : ReadHalf) (T : AsyncWrite) where
  -- The calls that want the lock: `forward` with the address that it has looked up before, and
  -- `stores` for the assignment of `reconnect`.
  pub data Call : Type 0 where
    forwards : IpAddr × ℕ → C.State → T.State → Call
    execs : Str → Call
    checks : Call
    opens : Call
    stores : S.Handle → Call

  pub data Task : Type 0 where
    waits : Call → Task
    relays : S.Channel → Relay S C T → Task
    done : Task

  -- `guard` is the task that holds the lock.
  pub record Shared : Type 0 where
    pub guard : Option ℕ
    pub tasks : ℕ → Task
    pub transport : Transport F S
    pub world : W

  after_open : ℕ → C.State → T.State → Shared → Result S.Channel → W → Shared
  unfolding opened_relay
  after_open i rx tx s (err e) w = record s { tasks = update s.tasks i done; world = w }
  after_open i rx tx s (ok channel) w = record s {
    guard = some i;
    tasks = update s.tasks i (relays channel (opened_relay S C T channel rx tx w));
    world = w;
  }

  finish_with : ℕ → Shared → W → Shared
  finish_with i s w = record s { tasks = update s.tasks i done; world = w }

  -- A call from the granting of the lock on.
  begin : ℕ → Call → Shared → Shared
  unfolding after_open finish_with open_direct exec check_alive open_session_channel
  begin i (forwards to rx tx) s =
      let (opened, w) = open_direct S C T F N s.transport to s.world in
      after_open i rx tx s opened w
  begin i (execs command) s = finish_with i s (exec F S s.transport command s.world).1
  begin i checks s = finish_with i s (check_alive F S s.transport s.world).1
  begin i opens s = finish_with i s (open_session_channel F S s.transport s.world).1
  begin i (stores session) s =
      finish_with i (record s { transport = record s.transport { session = session } }) s.world

  -- The lock is granted to a task that waits, and only while nobody holds it.
  granted : ℕ → Option ℕ → Task → Shared → Shared
  unfolding begin
  granted i none (waits call) s = begin i call s
  granted i none (relays channel r) s = s
  granted i none done s = s
  granted i (some j) task s = s

  relayed : ℕ → S.Channel → Relay S C T → Shared → Shared
  relayed i channel r s =
      let going = record s { tasks = update s.tasks i (relays channel r); world = r.world } in
      let over = record s { guard = none; tasks = update s.tasks i done; world = r.world } in
      if r.forwarding then going else over

  goes_on : ℕ → Event → Task → Shared → Shared
  unfolding relayed step
  goes_on i e (relays channel r) s =
      relayed i channel (step S C T channel e (record r { world = s.world })) s
  goes_on i e (waits call) s = s
  goes_on i e done s = s

  unfoldable pub act : Action → Shared → Shared
  unfolding granted goes_on
  act (grant i) s = granted i s.guard (s.tasks i) s
  act (go_on i e) s = goes_on i e (s.tasks i) s

  unfoldable pub acts : List Action → Shared → Shared
  unfolding act
  acts [] s = s
  acts (a ∷ rest) s = acts rest (act a s)

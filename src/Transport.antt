-- ===== src/Transport.antt =====
-- x2ssh/src/transport.rs: the SSH session, its reconnection and the commands that run over it.
pub mod Reconnect
pub mod Commands
pub mod Relay
pub mod Sharing
use x2ssh.Base.{ℕ, zero, suc, ◌+◌, ◌%◌, ◌/◌, ◌^◌, List, [], ◌∷◌, ◌++◌, Bool, true, false}
use x2ssh.Base.{Option, none, some, Str, codes, decimal, ◌==◌, if◌then◌else◌}
use x2ssh.Base.{Error, no_identity, auth_failed, health_check_failed, command_failed}
use x2ssh.Base.{Result, ok, err, map_err, Exec, pure, raise, lift, ◌>>=◌, ◌>>◌}
use x2ssh.Ssh.{ChannelMsg, data_msg, extended_data, exit_status, eof, other, Ssh}
use x2ssh.Retry.{Duration, RetryPolicy, delay_for_attempt, should_retry}
use x2ssh.Retry.Float.{F64}

pub record ExecResult : Type 0 where
  pub exit_code : ℕ
  pub stdout : List ℕ
  pub stderr : List ℕ

pub record TransportConfig (F : F64) : Type 0 where
  pub retry_policy : RetryPolicy F
  pub health_interval : Duration
  pub key_path : Option Str
  pub user : Str
  pub host : Str
  pub port : ℕ

-- One message of the loop in `exec`.
abbrev pub collect : ExecResult → ChannelMsg → ExecResult
collect r (data_msg bs) = record r { stdout = r.stdout ++ bs }
collect r (extended_data bs ext) = record r {
  stderr = if ext == 1 then r.stderr ++ bs else r.stderr;
}
collect r (exit_status n) = record r { exit_code = n }
collect r eof = r
collect r other = r

unfoldable pub collect_all : List ChannelMsg → ExecResult → ExecResult
collect_all [] r = r
collect_all (m ∷ ms) r = collect_all ms (collect r m)

abbrev pub no_output : ExecResult
no_output = record { exit_code = 0; stdout = []; stderr = [] }

abbrev pub ok_or : Error → Option Str → Result Str
ok_or e (some s) = ok s
ok_or e none = err e

module _ (F : F64) {W : Type 0} (S : Ssh W) where
  -- `*self.session.lock().await` is the field `session`.
  pub record Transport : Type 0 where
    pub session : S.Handle
    pub config : TransportConfig F

  unfoldable pub connect_once : TransportConfig F → Exec W S.Handle
  connect_once config = do
    key_path ← lift (ok_or no_identity config.key_path)
    key_pair ← S.load_secret_key key_path
    let addr = config.host ++ (codes ":" ++ decimal config.port)
    session ← S.connect addr
    hash ← S.best_supported_rsa_hash session
    success ← S.authenticate_publickey session config.user key_pair hash
    if success then pure session else raise auth_failed

  unfoldable pub connect : TransportConfig F → Exec W Transport
  unfolding connect_once
  connect config = do
    session ← connect_once config
    pure (record { session = session; config = config })

  -- The loop of `reconnect`, on fuel; `none` while it runs. The u32 counter wraps.
  unfoldable pub reconnect_loop :
      (Duration → W → W) → ℕ → Transport → ℕ → W → Option (Result (Unit {0})) × Transport × W
  reconnect_loop sleep zero self attempt w = (none, self, w)
  reconnect_loop sleep (suc fuel) self attempt w =
      let (connected, w') = connect_once self.config w in
      elim connected [
        | ok session ↦ (some (ok tt), record self { session = session }, w')
        | err e ↦
            let policy = self.config.retry_policy in
            let retry =
              reconnect_loop sleep fuel self ((attempt + 1) % 2 ^ 32)
                (sleep (delay_for_attempt F policy attempt) w') in
            if should_retry F policy attempt then retry else (some (err e), self, w')
      ]

  unfoldable pub reconnect :
      (Duration → W → W) → ℕ → Transport → W → Option (Result (Unit {0})) × Transport × W
  unfolding reconnect_loop
  reconnect sleep fuel self w = reconnect_loop sleep fuel self 0 w

  -- The spawned task closes the channel, and its result is dropped.
  close_spawned : S.Channel → Exec W (Unit {0})
  close_spawned channel w = (ok tt, (S.close channel w).1)

  opened : Result S.Channel → Exec W (Unit {0})
  unfolding close_spawned
  opened (ok channel) w = close_spawned channel w
  opened (err e) w = (err (health_check_failed e), w)

  unfoldable pub check_alive : Transport → Exec W (Unit {0})
  unfolding opened
  check_alive self w = let (r, w') = S.channel_open_session self.session w in opened r w'

  unfoldable pub exec : Transport → Str → Exec W ExecResult
  unfolding collect_all
  exec self command = do
    channel ← S.channel_open_session self.session
    S.exec channel command
    λ w. (ok (collect_all (S.inbox channel w) no_output), w)

  -- `lossy` and `trim` only shape the message of the error.
  unfoldable pub exec_success : (List ℕ → Str) → Transport → Str → Exec W (Unit {0})
  exec_success show self command = do
    result ← exec self command
    if result.exit_code == 0
        then pure tt
        else raise
            (command_failed command result.exit_code (show result.stdout) (show result.stderr))

  unfoldable pub open_session_channel : Transport → Exec W S.Channel
  open_session_channel self = do channel ← S.channel_open_session self.session; pure channel

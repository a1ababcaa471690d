-- ===== src/Transport/Commands.antt =====
-- What `exec` makes of the messages of its channel, and when a command counts as a success.
use x2ssh.Base.{ℕ, suc, List, [], ◌∷◌, ◌++◌, ◌≡◌, ◌∙◌, append-nil, append_assoc, arith}
use x2ssh.Base.{false, ◌==◌, if◌then◌else◌, Bool-cases, inl, inr, Str}
use x2ssh.Base.{command_failed, ok, err}
use x2ssh.Ssh.{ChannelMsg, data_msg, extended_data, exit_status, eof, other, Ssh}
use x2ssh.Retry.Float.{F64}
use x2ssh.Transport.{ExecResult, collect_all, no_output, Transport, exec, exec_success}

abbrev pub stdout_of : List ChannelMsg → List ℕ
stdout_of [] = []
stdout_of (data_msg bs ∷ ms) = bs ++ stdout_of ms
stdout_of (extended_data bs n ∷ ms) = stdout_of ms
stdout_of (exit_status n ∷ ms) = stdout_of ms
stdout_of (eof ∷ ms) = stdout_of ms
stdout_of (other ∷ ms) = stdout_of ms

-- Extended data of type 1 is the standard error.
abbrev pub stderr_of : List ChannelMsg → List ℕ
stderr_of [] = []
stderr_of (data_msg bs ∷ ms) = stderr_of ms
stderr_of (extended_data bs n ∷ ms) = if n == 1 then bs ++ stderr_of ms else stderr_of ms
stderr_of (exit_status n ∷ ms) = stderr_of ms
stderr_of (eof ∷ ms) = stderr_of ms
stderr_of (other ∷ ms) = stderr_of ms

-- The last exit status, or the given number if there is none.
abbrev pub last_status : ℕ → List ChannelMsg → ℕ
last_status d [] = d
last_status d (exit_status n ∷ ms) = last_status n ms
last_status d (data_msg bs ∷ ms) = last_status d ms
last_status d (extended_data bs n ∷ ms) = last_status d ms
last_status d (eof ∷ ms) = last_status d ms
last_status d (other ∷ ms) = last_status d ms

abbrev pub collected : List ChannelMsg → ExecResult → ExecResult
collected ms r = record {
  exit_code = last_status r.exit_code ms;
  stdout = r.stdout ++ stdout_of ms;
  stderr = r.stderr ++ stderr_of ms;
}

collect_all_lem : (ms : List ChannelMsg) (r : ExecResult) → collect_all ms r ≡ collected ms r
unfolding collect_all
collect_all_lem [] r = rw (append-nil r.stdout, append-nil r.stderr)
collect_all_lem (data_msg bs ∷ ms) r = collect_all_lem ms _ ∙ rw append_assoc
collect_all_lem (extended_data bs n ∷ ms) r = elim (Bool-cases (n == 1)) [
  | inl is_stderr ↦ collect_all_lem ms _ ∙ rw is_stderr (rw append_assoc)
  | inr is_not ↦ collect_all_lem ms _ ∙ rw is_not
]
collect_all_lem (exit_status n ∷ ms) r = collect_all_lem ms _
collect_all_lem (eof ∷ ms) r = collect_all_lem ms r
collect_all_lem (other ∷ ms) r = collect_all_lem ms r

pub suc-ne-zero : (n : ℕ) → (suc n == 0) ≡ false
suc-ne-zero n = ground arith

module _ (F : F64) {W : Type 0} (S : Ssh W) (self : Transport F S) where
  module _ (command : Str) (channel : S.Channel) (w w₁ w₂ : W)
      (opened : S.channel_open_session self.session w ≡ (ok channel, w₁))
      (started : S.exec channel command w₁ ≡ (ok tt, w₂)) where
    -- Once the command is started, `exec` returns all of its standard output and standard error, in
    -- order, with the last exit status that came, or 0 if none came.
    pub exec-collected :
        exec F S self command w ≡ (ok (collected (S.inbox channel w₂) no_output), w₂)
    unfolding exec
    exec-collected = rw opened (rw started (rw collect_all_lem))

    -- A started command is a success exactly if its last exit status is 0 or it sent none.
    pub exec_success-ok :
        (show : List ℕ → Str)
        → last_status 0 (S.inbox channel w₂) ≡ 0
        → exec_success F S show self command w ≡ (ok tt, w₂)
    unfolding exec_success
    exec_success-ok show h = rw exec-collected (rw h)

    pub exec_success-err :
        (show : List ℕ → Str) (n : ℕ)
        → last_status 0 (S.inbox channel w₂) ≡ suc n
        → exec_success F S show self command w ≡ (
          err (
              command_failed command
                (suc n)
                (show (stdout_of (S.inbox channel w₂)))
                (show (stderr_of (S.inbox channel w₂)))),
          w₂,
        )
    unfolding exec_success
    exec_success-err show n h = rw exec-collected (rw h (rw (suc-ne-zero n)))

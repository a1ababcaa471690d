-- ===== src/Build.antt =====
-- x2ssh/build.rs: builds the agent and tells the compiler where its binary is, for `include_bytes!`
-- of x2ssh/src/vpn/agent.rs. A panic ends the script.
pub mod Binary
use x2ssh.Base.{List, [], ◌∷◌, ◌++◌, Bool, true, false, Option, none, some, Str, codes}
use x2ssh.Base.{Result, ok, err, Exec}

-- What the script uses of std: the environment, paths, processes and its output.
pub record BuildHost (W : Type 0) : Type 1 where
  pub PathBuf : Type 0
  pub var : Str → W → Option Str
  pub path : Str → PathBuf
  pub join : PathBuf → Str → PathBuf
  pub to_str : PathBuf → Option Str
  -- The program, its arguments, and the variables that it is given besides; whether it succeeded.
  pub status : Str → List Str → List (Str × Str) → Exec W Bool
  pub println : Str → W → W

pub data Outcome : Type 0 where
  returned : Outcome
  panicked : Str → Outcome

abbrev pub musl_target : Str
musl_target = codes "x86_64-unknown-linux-musl"

abbrev pub build_args : Str → List Str
build_args out_dir =
    codes "build"
    ∷ codes "-p"
    ∷ codes "x2ssh-agent"
    ∷ codes "--target"
    ∷ musl_target
    ∷ codes "--profile"
    ∷ codes "release-agent"
    ∷ codes "--target-dir"
    ∷ (out_dir ++ codes "/agent-build")
    ∷ []

abbrev pub build_env : List (Str × Str)
build_env = (codes "RUSTFLAGS", codes "-C target-feature=+crt-static") ∷ []

module _ {W : Type 0} (B : BuildHost W) where
  abbrev pub agent_path : Str → B.PathBuf
  agent_path out_dir =
      let target_dir = B.join (B.path out_dir) (codes "agent-build") in
      let profile_dir = B.join (B.join target_dir musl_target) (codes "release-agent") in
      B.join profile_dir (codes "x2ssh-agent")

  tell_path : Option Str → W → Outcome × W
  tell_path none w = (panicked (codes "called `Option::unwrap()` on a `None` value"), w)
  tell_path (some p) w = (returned, B.println (codes "cargo:rustc-env=X2SSH_AGENT_PATH=" ++ p) w)

  after_status : Str → Result Bool → W → Outcome × W
  unfolding tell_path
  after_status out_dir (err e) w =
      (panicked (codes "Failed to execute cargo build for x2ssh-agent"), w)
  after_status out_dir (ok false) w = (
    panicked (
        codes "x2ssh-agent build failed. Ensure musl target is installed: rustup target add "
        ++ musl_target),
    w,
  )
  after_status out_dir (ok true) w = tell_path (B.to_str (agent_path out_dir)) w

  with_variables : Option Str → Option Str → W → Outcome × W
  unfolding after_status
  with_variables none cargo w = (panicked (codes "OUT_DIR not set"), w)
  with_variables (some out_dir) none w = (panicked (codes "CARGO not set"), w)
  with_variables (some out_dir) (some cargo) w =
      let (status, w') = B.status cargo (build_args out_dir) build_env w in
      after_status out_dir status w'

  unfoldable pub build_script : W → Outcome × W
  unfolding with_variables
  build_script w =
      let w' = B.println (codes "cargo:rerun-if-changed=../x2ssh-agent/") w in
      with_variables (B.var (codes "OUT_DIR") w') (B.var (codes "CARGO") w') w'

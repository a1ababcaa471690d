-- ===== src/Build/Binary.antt =====
-- The binary that the client embeds is the one that the build script has built.
use x2ssh.Base.{ℕ, ◌≡◌, refl, ap, List, [], ◌∷◌, ◌++◌}
use x2ssh.Base.{Bool, true, false, not, ◌==◌, Option, none, some, Str, str_eq, codes, if◌then◌else◌}
use x2ssh.Base.{ok}
use x2ssh.Build.{BuildHost, returned, musl_target, build_args, build_env, agent_path, build_script}

-- A name in a directory.
infixl 5 ◌/name◌
abbrev pub ◌/name◌ : Str → Str → Str
dir /name name = dir ++ (b'/' ∷ name)

-- A path that ends in a name, with no slash behind it.
abbrev pub ends_in_name : Str → Bool
ends_in_name [] = false
ends_in_name (c ∷ []) = not (c == b'/')
ends_in_name (c ∷ d ∷ s) = ends_in_name (d ∷ s)

abbrev pub is_relative : Str → Bool
is_relative [] = false
is_relative (c ∷ s) = not (c == b'/')

-- The value of an option, or of a variable.
abbrev pub value_of : Str → List (Str × Str) → Option Str
value_of key [] = none
value_of key ((k, v) ∷ kvs) = let rest = value_of key kvs in if str_eq key k then some v else rest

abbrev pub words_of : List (Str × Str) → List Str
words_of [] = []
words_of ((k, v) ∷ kvs) = k ∷ v ∷ words_of kvs

-- What std documents of paths, and cargo of `cargo build`.
pub record Documented {W : Type 0} (B : BuildHost W) : Type 1 where
  pub to_str-path : (s : Str) → B.to_str (B.path s) ≡ some s
  pub to_str-join :
      (p : B.PathBuf) (s name : Str)
      → B.to_str p ≡ some s
      → ends_in_name s ≡ true
      → is_relative name ≡ true
      → B.to_str (B.join p name) ≡ some (s /name name)
  -- The file at a path is the binary of a package, made for a target and with a profile and with
  -- flags for rustc, a 0x1f between them.
  pub IsBinaryOf : W → Str → Str → Str → Str → Str → Type 0
  -- The flags of CARGO_ENCODED_RUSTFLAGS, inherited where the command does not set it, go before
  -- those of RUSTFLAGS and of the configuration, which are used only where it is not set at all.
  pub status-IsBinaryOf :
      (cargo dir name target profile flags : Str) (options env : List (Str × Str)) (w w' : W)
      → value_of (codes "-p") options ≡ some name
      → value_of (codes "--target") options ≡ some target
      → value_of (codes "--profile") options ≡ some profile
      → value_of (codes "--target-dir") options ≡ some dir
      → value_of (codes "CARGO_ENCODED_RUSTFLAGS") env ≡ none
      → B.var (codes "CARGO_ENCODED_RUSTFLAGS") w ≡ some flags
      → B.status cargo (codes "build" ∷ words_of options) env w ≡ (ok true, w')
      → IsBinaryOf w' (dir /name target /name profile /name name) name target profile flags

ends_in_name-append :
    (s : Str) (c : ℕ) (t : Str) → ends_in_name (s ++ (c ∷ t)) ≡ ends_in_name (c ∷ t)
ends_in_name-append [] c t = refl
ends_in_name-append (a ∷ []) c t = refl
ends_in_name-append (a ∷ b ∷ s) c t = ends_in_name-append (b ∷ s) c t

-- The arguments of the script, read as options.
abbrev build_options : Str → List (Str × Str)
build_options out_dir =
    (codes "-p", codes "x2ssh-agent")
    ∷ (codes "--target", musl_target)
    ∷ (codes "--profile", codes "release-agent")
    ∷ (codes "--target-dir", out_dir ++ codes "/agent-build")
    ∷ []

abbrev built_path : Str → Str
built_path out_dir =
    out_dir ++ codes "/agent-build"
    /name musl_target
    /name codes "release-agent"
    /name codes "x2ssh-agent"

module _ {W : Type 0} (B : BuildHost W) (D : Documented B) where
  to_str-agent_path :
      (out_dir : Str)
      → ends_in_name out_dir ≡ true
      → B.to_str (agent_path B out_dir) ≡ some (built_path out_dir)
  to_str-agent_path out_dir plain =
      D.to_str-join _ _ _
        (D.to_str-join _ _ _
          (D.to_str-join _ _ _ (D.to_str-join _ _ _ (D.to_str-path out_dir) plain refl)
            (ends_in_name-append out_dir _ _) refl)
          (ends_in_name-append (out_dir ++ codes "/agent-build") _ _) refl)
        (ends_in_name-append (out_dir ++ codes "/agent-build" /name musl_target) _ _) refl

  -- Where OUT_DIR, with no slash at its end, CARGO and CARGO_ENCODED_RUSTFLAGS are set and every
  -- `cargo build` succeeds, the script returns. The last that it prints names the file that the
  -- compiler embeds as the agent, by X2SSH_AGENT_PATH; this file is the binary of the package
  -- x2ssh-agent, built for the target x86_64-unknown-linux-musl with the profile release-agent,
  -- and with the flags of CARGO_ENCODED_RUSTFLAGS instead of the RUSTFLAGS that the script sets.
  pub build_script-IsBinaryOf :
      (out_dir cargo flags : Str) (w : W)
      → ends_in_name out_dir ≡ true
      → ((v : W) → B.var (codes "OUT_DIR") v ≡ some out_dir)
      → ((v : W) → B.var (codes "CARGO") v ≡ some cargo)
      → ((v : W) → B.var (codes "CARGO_ENCODED_RUSTFLAGS") v ≡ some flags)
      → ((args : List Str) (env : List (Str × Str)) (v : W)
          → (B.status cargo args env v).0 ≡ ok true)
      → (path : Str) × (built : W) × (build_script B w
          ≡ (returned, B.println (codes "cargo:rustc-env=X2SSH_AGENT_PATH=" ++ path) built))
        × D.IsBinaryOf built path
            (codes "x2ssh-agent")
            (codes "x86_64-unknown-linux-musl")
            (codes "release-agent")
            flags
  unfolding build_script
  build_script-IsBinaryOf out_dir cargo flags w plain has_dir has_cargo has_flags succeeds =
      let start = B.println (codes "cargo:rerun-if-changed=../x2ssh-agent/") w in
      let built = (B.status cargo (build_args out_dir) build_env start).1 in
      (
        built_path out_dir,
        built,
        rw
            (
              has_dir start,
              has_cargo start,
              succeeds (build_args out_dir) build_env start,
              to_str-agent_path out_dir plain,
            )
            refl,
        D.status-IsBinaryOf cargo (out_dir ++ codes "/agent-build") _ _ _ flags
            (build_options out_dir) build_env start built refl refl refl refl refl (has_flags start)
            (ap (λ r. (r, built)) (succeeds (build_args out_dir) build_env start)),
      )

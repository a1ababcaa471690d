-- ===== src/Examples/Build.antt =====
-- A run of the build script, with a cargo that always builds what it is asked for.
use x2ssh.Base.{
  ◌≡◌, refl, sym, ap, ◌∙◌, List, [], ◌∷◌, ◌++◌, Option, none, some, Str, codes, Result, ok, Bool,
}
use x2ssh.Base.{true, drop}
use x2ssh.Build.{BuildHost, returned, build_script}
use x2ssh.Build.Binary.{◌/name◌, value_of, words_of, Documented, build_script-IsBinaryOf}

-- A binary: its path, package, target, profile and flags.
abbrev Binary : Type 0
Binary = Str × Str × Str × Str × Str

record Disk : Type 0 where
  printed : List Str
  binary : Option Binary

abbrev value_or_empty : Option Str → Str
value_or_empty none = []
value_or_empty (some v) = v

abbrev options_of : List Str → List (Str × Str)
options_of [] = []
options_of (k ∷ []) = []
options_of (k ∷ v ∷ ws) = (k, v) ∷ options_of ws

options_of-words_of : (kvs : List (Str × Str)) → options_of (words_of kvs) ≡ kvs
options_of-words_of [] = refl
options_of-words_of ((k, v) ∷ kvs) = ap (λ r. (k, v) ∷ r) (options_of-words_of kvs)

abbrev var_of : Str → Option Str
var_of key = value_of key (
    (codes "OUT_DIR", codes "/out")
    ∷ (codes "CARGO", codes "/bin/cargo")
    ∷ (codes "CARGO_ENCODED_RUSTFLAGS", codes "-Copt-level=3")
    ∷ [])

-- The variables that a process is given go before those that it inherits.
abbrev given_or_inherited : Option Str → Str → Option Str
given_or_inherited none key = var_of key
given_or_inherited (some v) key = some v

-- RUSTFLAGS is not looked at, since CARGO_ENCODED_RUSTFLAGS is always set.
abbrev flags_of : List (Str × Str) → Str
flags_of env =
    let key = codes "CARGO_ENCODED_RUSTFLAGS" in
    value_or_empty (given_or_inherited (value_of key env) key)

abbrev made : List (Str × Str) → List (Str × Str) → Binary
made options env =
    let of = λ (key : Str). value_or_empty (value_of key options) in
    (
      of (codes "--target-dir")
          /name of (codes "--target")
          /name of (codes "--profile")
          /name of (codes "-p"),
      of (codes "-p"),
      of (codes "--target"),
      of (codes "--profile"),
      flags_of env,
    )

abbrev cargo_host : BuildHost Disk
cargo_host = record {
  PathBuf = Str;
  var = λ key w. var_of key;
  path = λ s. s;
  join = λ p name. p /name name;
  to_str = λ p. some p;
  status = λ cargo args env w.
      (ok true, record w { binary = some (made (options_of (drop 1 args)) env) });
  println = λ s w. record w { printed = s ∷ w.printed };
}

status_lem :
    (cargo dir name target profile flags : Str) (options env : List (Str × Str)) (w w' : Disk)
    → value_of (codes "-p") options ≡ some name
    → value_of (codes "--target") options ≡ some target
    → value_of (codes "--profile") options ≡ some profile
    → value_of (codes "--target-dir") options ≡ some dir
    → value_of (codes "CARGO_ENCODED_RUSTFLAGS") env ≡ none
    → var_of (codes "CARGO_ENCODED_RUSTFLAGS") ≡ some flags
    → cargo_host.status cargo (codes "build" ∷ words_of options) env w ≡ (ok true, w')
    → w'.binary ≡ some (dir /name target /name profile /name name, name, target, profile, flags)
status_lem cargo dir name target profile flags options env w w' hn ht hp hd unset hf ran =
    ap (λ (r : Result Bool × Disk). r.1.binary) (sym ran)
    ∙ ap (λ o. some (made o env)) (options_of-words_of options)
    ∙ rw (hn, ht, hp, hd, unset)
        (ap (λ f. some (dir /name target /name profile /name name, name, target, profile, f))
          (ap value_or_empty hf))

documented : Documented cargo_host
documented = record {
  to_str-path = λ s. refl;
  to_str-join = λ p s name h ends relative. cc;
  IsBinaryOf =
      λ w path name target profile flags. w.binary ≡ some (path, name, target, profile, flags);
  status-IsBinaryOf = status_lem;
}

build_script-IsBinaryOf_example :
    (path : Str) × (built : Disk) × (build_script cargo_host
        (record { printed = []; binary = none })
      ≡ (returned, cargo_host.println (codes "cargo:rustc-env=X2SSH_AGENT_PATH=" ++ path) built))
    × documented.IsBinaryOf built path
        (codes "x2ssh-agent")
        (codes "x86_64-unknown-linux-musl")
        (codes "release-agent")
        (codes "-Copt-level=3")
build_script-IsBinaryOf_example =
    build_script-IsBinaryOf cargo_host documented (codes "/out") (codes "/bin/cargo")
      (codes "-Copt-level=3") (record { printed = []; binary = none }) refl (λ v. refl) (λ v. refl)
      (λ v. refl) (λ args env v. refl)

-- ===== src/UnitTests.antt =====
-- The source's own unit tests on the model: each is a function into Bool, and passes. What a test
-- uses of another library (the TOML parser, clap, ipnet, f64) is a parameter.
pub mod Framing
pub mod Backoff
pub mod ConfigFile
pub mod Addresses
pub mod CommandLine
use x2ssh.Base.{Bool, false, Result, ok, err}

-- `unwrap`, and what comes behind it: a panic fails the test.
abbrev pub unwrap {ℓ} : {A : Type ℓ} → Result A → (A → Bool) → Bool
unwrap (ok a) rest = rest a
unwrap (err e) rest = false

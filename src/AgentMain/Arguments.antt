-- ===== src/AgentMain/Arguments.antt =====
-- Which arguments start the agent of x2ssh-agent/src/main.rs, and with what device.
use x2ssh.Base.{ℕ, zero, suc, ◌<◌, ◌≡◌, refl, sym, subst, [], ◌∷◌, ◌++◌, Bool, true, false}
use x2ssh.Base.{
  Option, none, some, Str, codes, decimal, ◌==◌, ◌&&◌, ==_iff, and-true, lt-or-eq, inl, inr, All,
  ap, Exec,
}
use x2ssh.AgentMain.Start.{split_once, parse_u8, create_tun, with_parts, with_prefix, main_setup}

split_once-append :
    (sep : ℕ) (s rest : Str)
    → All (λ (c : ℕ). (c == sep) ≡ false) s
    → split_once sep (s ++ (sep ∷ rest)) ≡ some (s, rest)
unfolding split_once
split_once-append sep [] rest h =
    let same : (sep == sep) ≡ true = (==_iff sep sep).1 refl in rw same refl
split_once-append sep (c ∷ s) rest (hc, h) = rw (hc, split_once-append sep s rest h) refl

abbrev reads_back : ℕ → Option ℕ → Bool
reads_back n none = false
reads_back n (some m) = m == n

abbrev all_read_back : ℕ → Bool
all_read_back zero = true
all_read_back (suc n) = reads_back n (parse_u8 (decimal n)) && all_read_back n

all_read_back_256 : all_read_back 256 ≡ true
unfolding parse_u8 decimal
all_read_back_256 = refl

reads_back-below :
    (k n : ℕ) → all_read_back k ≡ true → n < k → reads_back n (parse_u8 (decimal n)) ≡ true
reads_back-below zero n h below = elim below [ ]
reads_back-below (suc k) n h below =
    let (good, rest) = and-true (reads_back k (parse_u8 (decimal k))) (all_read_back k) h in
    elim (lt-or-eq n k below) [
      | inl less ↦ reads_back-below k n rest less
      | inr e ↦ subst (λ x. reads_back x (parse_u8 (decimal x)) ≡ true) (sym e) good
    ]

reads_back-some : (n : ℕ) (o : Option ℕ) → reads_back n o ≡ true → o ≡ some n
reads_back-some n none h = cc
reads_back-some n (some m) h = ap some ((==_iff m n).0 h)

parse_u8-decimal : (n : ℕ) → n < 256 → parse_u8 (decimal n) ≡ some n
parse_u8-decimal n below =
    reads_back-some n (parse_u8 (decimal n)) (reads_back-below 256 n all_read_back_256 below)

module _ {W Device : Type 0} (build : Str → ℕ → ℕ → Exec W Device) where
  -- The agent that is called with `--ip ADDRESS/PREFIX`, with no slash in ADDRESS and PREFIX the
  -- decimal text of a byte, builds its device with that address and prefix and an MTU of 1400.
  pub main_setup-decimal :
      (name addr : Str) (prefix : ℕ) (w : W)
      → All (λ (c : ℕ). (c == b'/') ≡ false) addr
      → prefix < 256
      → main_setup build (name ∷ codes "--ip" ∷ (addr ++ (b'/' ∷ decimal prefix)) ∷ []) w
        ≡ build addr prefix 1400 w
  unfolding main_setup create_tun with_parts with_prefix
  main_setup-decimal name addr prefix w no_slash small =
      rw
        (
          split_once-append b'/' addr (decimal prefix) no_slash,
          with_parts,
          parse_u8-decimal prefix small,
          with_prefix,
        )
        refl

-- ===== src/Net/Parse/Octets.antt =====
-- `Ipv4Addr::from_str` reads back what `to_string` writes.
use x2ssh.Base.{ℕ, zero, suc, ◌<◌, ◌≡◌, refl, ap, [], ◌∷◌, ◌++◌}
use x2ssh.Base.{Bool, true, false, ◌&&◌, not, Option, none, some, Str, ◌==◌, decimal, All}
use x2ssh.Base.{inl, inr, ==_iff, and-true, not-true, sym, subst, lt-or-eq}
use x2ssh.Net.{v4, IpNets, show_ip}
use x2ssh.Net.Parse.{is_whitespace, split_on, parse_octet, parse_ipv4}
use x2ssh.Net.Parse.Words.{NoSpace}

abbrev is_octet : Option ℕ → ℕ → Bool
is_octet none n = false
is_octet (some m) n = m == n

-- No dot and no white space in the text.
abbrev is_plain : Str → Bool
is_plain [] = true
is_plain (c ∷ s) = not (c == b'.') && (not (is_whitespace c) && is_plain s)

abbrev is_good : ℕ → Bool
is_good n = is_octet (parse_octet (decimal n)) n && is_plain (decimal n)

abbrev all_good : ℕ → Bool
all_good zero = true
all_good (suc n) = is_good n && all_good n

all_good_256 : all_good 256 ≡ true
unfolding parse_octet decimal is_whitespace
all_good_256 = refl

-- What the test says of a text.
abbrev Plain : Str → Type 0
Plain s = All (λ (c : ℕ). ((c == b'.') ≡ false) × (is_whitespace c ≡ false)) s

is_plain-Plain : (s : Str) → is_plain s ≡ true → Plain s
is_plain-Plain [] h = tt
is_plain-Plain (c ∷ s) h =
    let (no_dot, rest) = and-true (not (c == b'.')) (not (is_whitespace c) && is_plain s) h in
    let (no_space, plain) = and-true (not (is_whitespace c)) (is_plain s) rest in
    ((not-true (c == b'.') no_dot, not-true (is_whitespace c) no_space), is_plain-Plain s plain)

all_good-below : (k n : ℕ) → all_good k ≡ true → n < k → is_good n ≡ true
all_good-below zero n h below = elim below [ ]
all_good-below (suc k) n h below =
    let (good, rest) = and-true (is_good k) (all_good k) h in
    elim (lt-or-eq n k below) [
      | inl less ↦ all_good-below k n rest less
      | inr e ↦ subst (λ x. is_good x ≡ true) (sym e) good
    ]

is_octet-some : (o : Option ℕ) (n : ℕ) → is_octet o n ≡ true → o ≡ some n
is_octet-some none n h = cc
is_octet-some (some m) n h = ap some ((==_iff m n).0 h)

byte_good : (n : ℕ) → n < 256 → (parse_octet (decimal n) ≡ some n) × Plain (decimal n)
byte_good n below =
    let (octet, plain) =
      and-true (is_octet (parse_octet (decimal n)) n) (is_plain (decimal n))
        (all_good-below 256 n all_good_256 below) in
    (is_octet-some (parse_octet (decimal n)) n octet, is_plain-Plain (decimal n) plain)

split_on-last : (s : Str) → Plain s → split_on b'.' s ≡ s ∷ []
unfolding split_on
split_on-last [] h = refl
split_on-last (c ∷ s) ((hc, _), h) = rw (hc, split_on-last s h) refl

split_on-dot : (s t : Str) → Plain s → split_on b'.' (s ++ (b'.' ∷ t)) ≡ s ∷ split_on b'.' t
unfolding split_on
split_on-dot [] t h = refl
split_on-dot (c ∷ s) t ((hc, _), h) = rw (hc, split_on-dot s t h) refl

module _ (N : IpNets) (a b c d : ℕ) (ha : a < 256) (hb : b < 256) (hc : c < 256)
    (hd : d < 256) where
  pub parse_ipv4-show_ip : parse_ipv4 (show_ip N (v4 a b c d)) ≡ some (v4 a b c d)
  unfolding parse_ipv4 show_ip
  parse_ipv4-show_ip =
      rw
        (
          split_on-dot (decimal a) (decimal b ++ (b'.' ∷ (decimal c ++ (b'.' ∷ decimal d))))
              (byte_good a ha).1,
          split_on-dot (decimal b) (decimal c ++ (b'.' ∷ decimal d)) (byte_good b hb).1,
          split_on-dot (decimal c) (decimal d) (byte_good c hc).1,
          split_on-last (decimal d) (byte_good d hd).1,
          (byte_good a ha).0,
          (byte_good b hb).0,
          (byte_good c hc).0,
          (byte_good d hd).0,
        )
        refl

NoSpace-Plain : (s : Str) → Plain s → NoSpace s
NoSpace-Plain [] h = tt
NoSpace-Plain (c ∷ s) ((_, hc), h) = (hc, NoSpace-Plain s h)

NoSpace-append : (s t : Str) → NoSpace s → NoSpace t → NoSpace (s ++ t)
NoSpace-append [] t hs ht = ht
NoSpace-append (c ∷ s) t (hc, hs) ht = (hc, NoSpace-append s t hs ht)

octet_NoSpace : (n : ℕ) → n < 256 → NoSpace (decimal n)
octet_NoSpace n h = NoSpace-Plain (decimal n) (byte_good n h).1

pub show_ip-NoSpace :
    (N : IpNets) (a b c d : ℕ)
    → a < 256
    → b < 256
    → c < 256
    → d < 256
    → NoSpace (show_ip N (v4 a b c d))
unfolding show_ip is_whitespace
show_ip-NoSpace N a b c d ha hb hc hd =
    let two =
      NoSpace-append (decimal c) (b'.' ∷ decimal d) (octet_NoSpace c hc)
        (refl, octet_NoSpace d hd) in
    let three =
      NoSpace-append (decimal b) (b'.' ∷ (decimal c ++ (b'.' ∷ decimal d))) (octet_NoSpace b hb)
        (refl, two) in
    NoSpace-append (decimal a) (b'.' ∷ (decimal b ++ (b'.' ∷ (decimal c ++ (b'.' ∷ decimal d)))))
      (octet_NoSpace a ha) (refl, three)

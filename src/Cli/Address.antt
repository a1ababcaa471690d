-- ===== src/Cli/Address.antt =====
-- The texts on the command line: `USER@HOST`, and a bare port.
use x2ssh.Base.{ℕ, zero, suc, ◌+◌, ◌-◌, ◌*◌, ◌<◌, ◌≤◌, ◌≡◌, ◌≢◌, refl, ap, ◌∙◌, arith, inl, inr}
use x2ssh.Base.{[], ◌∷◌, ◌++◌, Str}
use x2ssh.Base.{Result, ok, err, expected_user_host, All}
use x2ssh.Cli.{
  splitn_two, parse_user_host, parse_digits, parse_u16, Cli, SocketAddr, socks_socket_addr,
  localhost,
}
use x2ssh.Retry.Float.{F64}
use x2ssh.Base.{lt-or-le, lt→ltb, le→ltb, decimal, decimal_loop, some, ◌/◌, ◌%◌}

-- No character of the text is `c`.
abbrev pub Lacks : ℕ → Str → Type 0
Lacks c s = All (λ d. d ≢ c) s

splitn_two-append :
    (sep : ℕ) (s rest : Str) → Lacks sep s → splitn_two sep (s ++ (sep ∷ rest)) ≡ s ∷ rest ∷ []
unfolding splitn_two
splitn_two-append sep [] rest lacks = ground arith
splitn_two-append sep (c ∷ s) rest (ne, lacks) = ground (arith, splitn_two-append sep s rest lacks)

splitn_two_whole : (sep : ℕ) (s : Str) → Lacks sep s → splitn_two sep s ≡ s ∷ []
unfolding splitn_two
splitn_two_whole sep [] lacks = refl
splitn_two_whole sep (c ∷ s) (ne, lacks) = ground (arith, splitn_two_whole sep s lacks)

-- The text before the first `@` is the user and all the rest is the host, also further `@`s.
pub parse_user_host-append :
    (user host : Str) → Lacks b'@' user → parse_user_host (user ++ (b'@' ∷ host)) ≡ ok (user, host)
unfolding parse_user_host
parse_user_host-append user host lacks = rw (splitn_two-append b'@' user host lacks)

-- Without an `@` the destination is refused.
pub parse_user_host-err : (s : Str) → Lacks b'@' s → parse_user_host s ≡ err expected_user_host
unfolding parse_user_host
parse_user_host-err s lacks = rw (splitn_two_whole b'@' s lacks)

-- One more digit at the end of a number that was read.
parse_digits-append :
    (s : Str) (acc v d : ℕ)
    → parse_digits acc s ≡ some v
    → d < 10
    → v * 10 + d ≤ 65535
    → parse_digits acc (s ++ ((b'0' + d) ∷ [])) ≡ some (v * 10 + d)
unfolding parse_digits
parse_digits-append [] acc v d h hd fits = ground arith
parse_digits-append (c ∷ s) acc v d h hd fits =
    ground (arith, parse_digits-append s (acc * 10 + (c - b'0')) v d)

parse_digits-decimal_loop :
    (fuel n : ℕ) → n < fuel → n ≤ 65535 → parse_digits 0 (decimal_loop fuel n) ≡ some n
unfolding decimal_loop parse_digits
parse_digits-decimal_loop zero n h fits = elim h [ ]
parse_digits-decimal_loop (suc fuel) n h fits = elim (lt-or-le n 10) [
  | inl small ↦
      rw (lt→ltb n 10 small)
        (parse_digits-append [] 0 0 n refl small (omega arith) ∙ ap some (omega arith))
  | inr large ↦
      let front = parse_digits-decimal_loop fuel (n / 10) (omega arith) (omega arith) in
      rw (le→ltb n 10 large) (
        parse_digits-append (decimal_loop fuel (n / 10)) 0 (n / 10) (n % 10) front (omega arith)
          (omega arith)
        ∙ ap some (omega arith))
]

snoc-ne-nil : (s : Str) (c : ℕ) → s ++ (c ∷ []) ≢ []
snoc-ne-nil [] c e = cc
snoc-ne-nil (d ∷ s) c e = cc

decimal-ne-nil : (n : ℕ) → decimal n ≢ []
unfolding decimal
decimal-ne-nil n e = ground (arith, snoc-ne-nil (decimal_loop n (n / 10)) (b'0' + n % 10))

parse_u16-digits : (s : Str) (n : ℕ) → s ≢ [] → parse_digits 0 s ≡ some n → parse_u16 s ≡ some n
unfolding parse_u16
parse_u16-digits [] n full h = absurd (full refl)
parse_u16-digits (c ∷ s) n full h = ground arith

-- A port is read back from its decimal text.
pub parse_u16-decimal : (n : ℕ) → n ≤ 65535 → parse_u16 (decimal n) ≡ some n
unfolding decimal
parse_u16-decimal n h =
    parse_u16-digits (decimal n) n (decimal-ne-nil n)
      (parse_digits-decimal_loop (n + 1) n (omega arith) h)

parse_digits-le : (s : Str) (acc n : ℕ) → acc ≤ 65535 → parse_digits acc s ≡ some n → n ≤ 65535
unfolding parse_digits
parse_digits-le [] acc n small h = ground arith
parse_digits-le (c ∷ s) acc n small h = ground (arith, parse_digits-le s (acc * 10 + (c - b'0')) n)

module _ {F : F64} (parse_addr : Str → Result SocketAddr) (self : Cli F) where
  -- `-D PORT` listens on that port of 127.0.0.1, for every port.
  pub socks_socket_addr-port :
      (n : ℕ)
      → n ≤ 65535
      → self.socks_addr ≡ some (decimal n)
      → socks_socket_addr parse_addr self ≡ ok (record { ip = localhost; port = n })
  unfolding socks_socket_addr
  socks_socket_addr-port n h given = rw (given, parse_u16-decimal n h)

-- ===== src/Net/Parse.antt =====
-- The standard library's reading of texts: words, the first line, and `Ipv4Addr::from_str`.
pub mod Words
pub mod Octets
use x2ssh.Base.{ℕ, ◌+◌, ◌-◌, ◌*◌, List, [], ◌∷◌, ◌++◌, Bool, false, ◌&&◌, ◌||◌}
use x2ssh.Base.{Option, none, some, Str, ltb, leb, ◌==◌, if◌then◌else◌}
use x2ssh.Net.{IpAddr, v4}

-- The Unicode property White_Space.
unfoldable pub is_whitespace : ℕ → Bool
is_whitespace c =
    (leb 9 c && leb c 13)
    || (c == 32)
    || (c == 0x85)
    || (c == 0xa0)
    || (c == 0x1680)
    || (leb 0x2000 c && leb c 0x200a)
    || (c == 0x2028)
    || (c == 0x2029)
    || (c == 0x202f)
    || (c == 0x205f)
    || (c == 0x3000)

-- The word being read, if it has any character, in front of the other words.
abbrev pub end_word : Str → List Str → List Str
end_word [] ws = ws
end_word (c ∷ s) ws = (c ∷ s) ∷ ws

unfoldable pub words_from : Str → Str → List Str
unfolding is_whitespace
words_from word [] = end_word word []
words_from word (c ∷ s) =
    let next = end_word word (words_from [] s) in
    let more = words_from (word ++ (c ∷ [])) s in if is_whitespace c then next else more

-- `str::split_whitespace`
unfoldable pub split_whitespace : Str → List Str
unfolding words_from
split_whitespace s = words_from [] s

abbrev starts_newline : Str → Bool
starts_newline [] = false
starts_newline (c ∷ s) = c == 10

-- A line ends before a line feed, or a carriage return with a line feed.
unfoldable pub cut_line : Str → Str
cut_line [] = []
cut_line (c ∷ s) =
    let more = c ∷ cut_line s in
    if c == 10 then [] else if c == 13 && starts_newline s then [] else more

-- `str::lines().next()`
unfoldable pub first_line : Str → Option Str
unfolding cut_line
first_line [] = none
first_line (c ∷ s) = some (cut_line (c ∷ s))

abbrev push_first : ℕ → List Str → List Str
push_first c [] = (c ∷ []) ∷ []
push_first c (part ∷ parts) = (c ∷ part) ∷ parts

unfoldable pub split_on : ℕ → Str → List Str
split_on sep [] = [] ∷ []
split_on sep (c ∷ s) =
    let rest = split_on sep s in if c == sep then [] ∷ rest else push_first c rest

digits_value : ℕ → Str → Option ℕ
digits_value acc [] = some acc
digits_value acc (c ∷ s) =
    let rest = digits_value (acc * 10 + (c - b'0')) s in
    if leb b'0' c && leb c b'9' then rest else none

abbrev byte_only : Option ℕ → Option ℕ
byte_only none = none
byte_only (some n) = if ltb n 256 then some n else none

-- One to three digits, no zero in front of another digit, and a value that fits a byte.
unfoldable pub parse_octet : Str → Option ℕ
unfolding digits_value
parse_octet [] = none
parse_octet (c ∷ []) = byte_only (digits_value 0 (c ∷ []))
parse_octet (c ∷ d ∷ []) = if c == b'0' then none else byte_only (digits_value 0 (c ∷ d ∷ []))
parse_octet (c ∷ d ∷ e ∷ []) =
    if c == b'0' then none else byte_only (digits_value 0 (c ∷ d ∷ e ∷ []))
parse_octet (c ∷ d ∷ e ∷ f ∷ s) = none

abbrev pub octets : Option ℕ → Option ℕ → Option ℕ → Option ℕ → Option IpAddr
octets (some a) (some b) (some c) (some d) = some (v4 a b c d)
octets _ _ _ _ = none

abbrev pub four_parts : List Str → Option IpAddr
four_parts (a ∷ b ∷ c ∷ d ∷ []) =
    octets (parse_octet a) (parse_octet b) (parse_octet c) (parse_octet d)
four_parts _ = none

-- `str::parse::<Ipv4Addr>`
unfoldable pub parse_ipv4 : Str → Option IpAddr
unfolding split_on parse_octet
parse_ipv4 s = four_parts (split_on b'.' s)

-- ===== src/AgentMain/Start.antt =====
-- x2ssh-agent/src/main.rs: the check of the arguments and the creation of the TUN device.
use x2ssh.Base.{ℕ, ◌+◌, ◌-◌, ◌*◌, List, [], ◌∷◌, ◌&&◌, Option, none, some, Str, codes, str_eq}
use x2ssh.Base.{leb, ◌==◌, if◌then◌else◌, Exec, raise}
use x2ssh.Base.{expected_addr_prefix, bad_prefix, usage}

abbrev pub mtu : ℕ
mtu = 1400

abbrev pub add_front : ℕ → Option (Str × Str) → Option (Str × Str)
add_front c none = none
add_front c (some (front, back)) = some (c ∷ front, back)

-- `str::split_once`
unfoldable pub split_once : ℕ → Str → Option (Str × Str)
split_once sep [] = none
split_once sep (c ∷ s) =
    let rest = split_once sep s in if c == sep then some ([], s) else add_front c rest

unfoldable pub u8_digits : ℕ → Str → Option ℕ
u8_digits acc [] = some acc
u8_digits acc (c ∷ s) =
    let acc' = acc * 10 + (c - b'0') in
    let rest = u8_digits acc' s in if leb b'0' c && leb c b'9' && leb acc' 255 then rest else none

abbrev pub some_u8_digits : Str → Option ℕ
some_u8_digits [] = none
some_u8_digits (c ∷ s) = u8_digits 0 (c ∷ s)

-- `str::parse::<u8>`: an optional plus sign, then digits only, at least one, of value below 2^8.
unfoldable pub parse_u8 : Str → Option ℕ
unfolding u8_digits
parse_u8 [] = none
parse_u8 (c ∷ s) = if c == b'+' then some_u8_digits s else some_u8_digits (c ∷ s)

-- `build addr prefix mtu` is the device builder of tun_rs, which parses the address.
module _ {W Device : Type 0} (build : Str → ℕ → ℕ → Exec W Device) where
  unfoldable pub with_prefix : Str → Str → Option ℕ → Exec W Device
  with_prefix addr text none = raise (bad_prefix text)
  with_prefix addr text (some prefix) = build addr prefix mtu

  unfoldable pub with_parts : Str → Option (Str × Str) → Exec W Device
  unfolding with_prefix
  with_parts subnet_ip none = raise (expected_addr_prefix subnet_ip)
  with_parts subnet_ip (some (addr, prefix)) = with_prefix addr prefix (parse_u8 prefix)

  unfoldable pub create_tun : Str → Exec W Device
  unfolding with_parts
  create_tun subnet_ip = with_parts subnet_ip (split_once b'/' subnet_ip)

  -- `usage` stands for the exit with status 1.
  unfoldable pub main_setup : List Str → Exec W Device
  main_setup (name ∷ flag ∷ subnet_ip ∷ []) =
      if str_eq flag (codes "--ip") then create_tun subnet_ip else raise usage
  main_setup _ = raise usage

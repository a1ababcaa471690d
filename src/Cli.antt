-- ===== src/Cli.antt =====
-- x2ssh/src/main.rs: the command line (parsed by clap) and what is made of it.
pub mod Address
pub mod Merge
pub mod File
use x2ssh.Base.{
  ℕ, zero, suc, ◌+◌, ◌-◌, ◌*◌, List, [], ◌∷◌, Bool, true, false, not, ◌&&◌, Option, none, some,
}
use x2ssh.Base.{Str, codes, leb, ltb, ◌==◌, if◌then◌else◌, is_empty}
use x2ssh.Base.{Error, expected_user_host, socks_required, invalid_socks_address}
use x2ssh.Base.{Result, ok, err, and_then, map_err, Exec, pure, ◌>>=◌}
use x2ssh.Net.{IpAddr, v4}
use x2ssh.Retry.{RetryPolicy, from_millis}
use x2ssh.Retry.Float.{F64}
use x2ssh.Transport.{TransportConfig}
use x2ssh.Config.{VpnConfig, AppConfig, default_vpn}

pub record Cli (F : F64) : Type 0 where
  pub destination : Str
  pub vpn : Bool
  pub config : Option Str
  pub vpn_client_address : Option Str
  pub vpn_server_address : Option Str
  pub vpn_client_tun : Option Str
  pub vpn_mtu : Option ℕ
  pub vpn_exclude : List Str
  pub vpn_post_up : List Str
  pub vpn_pre_down : List Str
  pub socks_addr : Option Str
  pub port : ℕ
  pub identity : Option Str
  pub retry_max : Option ℕ
  pub retry_delay : ℕ
  pub retry_backoff : F.Num
  pub retry_max_delay : ℕ
  pub health_interval : ℕ

abbrev add_first : ℕ → List Str → List Str
add_first c [] = []
add_first c (part ∷ parts) = (c ∷ part) ∷ parts

-- `s.splitn(2, sep)`: at most two parts, cut at the first separator.
unfoldable pub splitn_two : ℕ → Str → List Str
splitn_two sep [] = [] ∷ []
splitn_two sep (c ∷ s) =
    let rest = splitn_two sep s in if c == sep then [] ∷ s ∷ [] else add_first c rest

two_parts : List Str → Result (Str × Str)
two_parts (user ∷ host ∷ []) = ok (user, host)
two_parts _ = err expected_user_host

unfoldable pub parse_user_host : Str → Result (Str × Str)
unfolding splitn_two two_parts
parse_user_host s = two_parts (splitn_two b'@' s)

-- `str::parse::<u16>`: an optional plus sign, then digits only, at least one, of value below 2^16.
parse_digits : ℕ → Str → Option ℕ
parse_digits acc [] = some acc
parse_digits acc (c ∷ s) =
    let acc' = acc * 10 + (c - b'0') in
    let rest = parse_digits acc' s in
    if leb b'0' c && leb c b'9' && leb acc' 65535 then rest else none

abbrev some_digits : Str → Option ℕ
some_digits [] = none
some_digits (c ∷ s) = parse_digits 0 (c ∷ s)

unfoldable pub parse_u16 : Str → Option ℕ
unfolding parse_digits
parse_u16 [] = none
parse_u16 (c ∷ s) = if c == b'+' then some_digits s else some_digits (c ∷ s)

pub record SocketAddr : Type 0 where
  pub ip : IpAddr
  pub port : ℕ

abbrev pub localhost : IpAddr
localhost = v4 127 0 0 1

-- `parse_addr` is `str::parse::<SocketAddr>`.
module _ (parse_addr : Str → Result SocketAddr) where
  socket_addr_of : Str → Option ℕ → Result SocketAddr
  socket_addr_of addr (some port) = ok (record { ip = localhost; port = port })
  socket_addr_of addr none = map_err (invalid_socks_address addr) (parse_addr addr)

  socks_addr_of : Option Str → Result SocketAddr
  unfolding socket_addr_of parse_u16
  socks_addr_of none = err socks_required
  socks_addr_of (some a) = socket_addr_of a (parse_u16 a)

  unfoldable pub socks_socket_addr : {F : F64} → Cli F → Result SocketAddr
  unfolding socks_addr_of
  socks_socket_addr self = socks_addr_of self.socks_addr

-- `if let Some(x) = over { field = x }`
abbrev pub override {ℓ} : {A : Type ℓ} → Option A → A → A
override (some x) old = x
override none old = old

-- `if !over.is_empty() { field = over }`
abbrev pub override_list {ℓ} : {A : Type ℓ} → List A → List A → List A
override_list over old = if not (is_empty over) then over else old

module _ {F : F64} where
  abbrev user_host : Cli F → Result (Str × Str)
  user_host self = parse_user_host self.destination

  unfoldable pub transport_config : Cli F → Result (TransportConfig F)
  unfolding parse_user_host
  transport_config self = and_then (user_host self) (λ x. ok (record {
    retry_policy = record {
      max_attempts = self.retry_max;
      initial_delay = from_millis self.retry_delay;
      backoff = self.retry_backoff;
      max_delay = from_millis self.retry_max_delay;
    };
    health_interval = from_millis self.health_interval;
    key_path = self.identity;
    user = x.0;
    host = x.1;
    port = self.port;
  }))

  unfoldable pub apply_overrides : Cli F → VpnConfig → VpnConfig
  apply_overrides self config =
      let c₁ = record config {
        client_address = override self.vpn_client_address config.client_address;
      } in
      let c₂ = record c₁ { server_address = override self.vpn_server_address c₁.server_address } in
      let c₃ = record c₂ { client_tun = override self.vpn_client_tun c₂.client_tun } in
      let c₄ = record c₃ { mtu = override self.vpn_mtu c₃.mtu } in
      let c₅ = record c₄ { exclude = override_list self.vpn_exclude c₄.exclude } in
      let c₆ = record c₅ { post_up = override_list self.vpn_post_up c₅.post_up } in
      record c₆ { pre_down = override_list self.vpn_pre_down c₆.pre_down }

  module _ {W : Type 0} (exists : Str → W → Bool) (load : Str → Exec W (AppConfig F)) where
    load_existing : Str → Bool → Exec W VpnConfig
    unfolding default_vpn
    load_existing path true = do app_config ← load path; pure app_config.vpn
    load_existing path false = pure default_vpn

    file_config : Option Str → Exec W VpnConfig
    unfolding load_existing
    file_config none w = (ok default_vpn, w)
    file_config (some path) w = load_existing path (exists path w) w

    unfoldable pub vpn_config : Cli F → Exec W VpnConfig
    unfolding file_config apply_overrides
    vpn_config self = do config ← file_config self.config; pure (apply_overrides self config)

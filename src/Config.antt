-- ===== src/Config.antt =====
-- x2ssh/src/config.rs: the configuration file, its defaults and the addresses in it.
pub mod Load
pub mod Sections
use x2ssh.Base.{ℕ, ◌+◌, List, [], ◌∷◌, Bool, ◌&&◌, Option, none, some, map, leb, if◌then◌else◌}
use x2ssh.Base.{Str, codes, str_eq, Result, ok, err, and_then, map_err, Exec, ◌>>=◌, lift, pure}
use x2ssh.Base.{Error, invalid_client_address, invalid_server_address, bad_max_attempts}
use x2ssh.Net.{IpAddr, IpNets}
use x2ssh.Retry.Float.{F64}

pub record VpnConfig : Type 0 where
  pub client_address : Str
  pub server_address : Str
  pub client_tun : Str
  pub mtu : ℕ
  pub exclude : List Str
  pub post_up : List Str
  pub pre_down : List Str

abbrev pub default_client_address : Str
default_client_address = codes "10.8.0.2/24"

abbrev pub default_server_address : Str
default_server_address = codes "10.8.0.1/24"

abbrev pub default_client_tun : Str
default_client_tun = codes "tun-x2ssh"

abbrev pub default_mtu : ℕ
default_mtu = 1400

unfoldable pub default_vpn : VpnConfig
default_vpn = record {
  client_address = default_client_address;
  server_address = default_server_address;
  client_tun = default_client_tun;
  mtu = default_mtu;
  exclude = [];
  post_up = [];
  pre_down = [];
}

module _ (N : IpNets) where
  unfoldable pub parse_client_address : VpnConfig → Result (IpAddr × N.IpNet)
  parse_client_address self =
      and_then
        (map_err (invalid_client_address self.client_address) (N.parse_net self.client_address))
        (λ net. ok (N.addr net, net))

  unfoldable pub parse_server_address : VpnConfig → Result (IpAddr × N.IpNet)
  parse_server_address self =
      and_then
        (map_err (invalid_server_address self.server_address) (N.parse_net self.server_address))
        (λ net. ok (N.addr net, net))

  unfoldable pub client_ip : VpnConfig → Result IpAddr
  unfolding parse_client_address
  client_ip self = and_then (parse_client_address self) (λ x. ok x.0)

  unfoldable pub server_ip : VpnConfig → Result IpAddr
  unfolding parse_server_address
  server_ip self = and_then (parse_server_address self) (λ x. ok x.0)

  unfoldable pub network : VpnConfig → Result N.IpNet
  unfolding parse_client_address
  network self = and_then (parse_client_address self) (λ x. ok x.1)

pub record ConnectionConfig : Type 0 where
  pub port : ℕ

abbrev pub default_port : ℕ
default_port = 22

unfoldable pub default_connection : ConnectionConfig
default_connection = record { port = default_port }

pub data MaxAttempts : Type 0 where
  inf : MaxAttempts
  count : ℕ → MaxAttempts

pub record RetryConfig (F : F64) : Type 0 where
  pub max_attempts : MaxAttempts
  pub initial_delay_ms : ℕ
  pub backoff : F.Num
  pub max_delay_ms : ℕ
  pub health_interval_ms : ℕ

unfoldable pub default_retry : (F : F64) → RetryConfig F
default_retry F = record {
  max_attempts = inf;
  initial_delay_ms = 1000;
  backoff = F.of_nat 2;
  max_delay_ms = 30000;
  health_interval_ms = 5000;
}

-- `u8::to_ascii_lowercase`, for `eq_ignore_ascii_case`.
abbrev pub ascii_lower : ℕ → ℕ
ascii_lower c = if leb b'A' c && leb c b'Z' then c + 32 else c

abbrev pub eq_ignore_ascii_case : Str → Str → Bool
eq_ignore_ascii_case s t = str_eq (map ascii_lower s) (map ascii_lower t)

-- What the untagged helper enum has read: a text or a u32.
pub data SelfDeser : Type 0 where
  text : Str → SelfDeser
  int : ℕ → SelfDeser

unfoldable pub deserialize : SelfDeser → Result MaxAttempts
deserialize (text x) =
    if eq_ignore_ascii_case x (codes "inf") then ok inf else err (bad_max_attempts x)
deserialize (int x) = ok (count x)

pub record AppConfig (F : F64) : Type 0 where
  pub vpn : VpnConfig
  pub connection : ConnectionConfig
  pub retry : RetryConfig F

unfoldable pub default_app : (F : F64) → AppConfig F
unfolding default_vpn default_connection default_retry
default_app F = record {
  vpn = default_vpn;
  connection = default_connection;
  retry = default_retry F;
}

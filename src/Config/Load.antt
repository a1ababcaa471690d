-- ===== src/Config/Load.antt =====
-- `AppConfig::load` and the derived deserialisers: a key that is missing takes its default.
use x2ssh.Base.{ℕ, List, [], Option, none, some, Str, Result, ok, and_then, Exec, ◌>>=◌, lift, pure}
use x2ssh.Retry.Float.{F64}
use x2ssh.Config.{
  VpnConfig, ConnectionConfig, RetryConfig, AppConfig, MaxAttempts, SelfDeser, inf, deserialize,
  default_client_address, default_server_address, default_client_tun, default_mtu, default_port,
  default_vpn, default_connection, default_retry,
}

-- `Option::unwrap_or`
abbrev pub unwrap_or {ℓ} : {A : Type ℓ} → A → Option A → A
unwrap_or d none = d
unwrap_or d (some a) = a

-- The tables of a TOML file, with the keys that it has.
pub record VpnTable : Type 0 where
  pub client_address : Option Str
  pub server_address : Option Str
  pub client_tun : Option Str
  pub mtu : Option ℕ
  pub exclude : Option (List Str)
  pub post_up : Option (List Str)
  pub pre_down : Option (List Str)

pub record RetryTable (F : F64) : Type 0 where
  pub max_attempts : Option SelfDeser
  pub initial_delay_ms : Option ℕ
  pub backoff : Option F.Num
  pub max_delay_ms : Option ℕ
  pub health_interval_ms : Option ℕ

pub record AppTable (F : F64) : Type 0 where
  pub vpn : Option VpnTable
  pub connection : Option (Option ℕ)
  pub retry : Option (RetryTable F)

unfoldable pub vpn_of_table : VpnTable → VpnConfig
vpn_of_table t = record {
  client_address = unwrap_or default_client_address t.client_address;
  server_address = unwrap_or default_server_address t.server_address;
  client_tun = unwrap_or default_client_tun t.client_tun;
  mtu = unwrap_or default_mtu t.mtu;
  exclude = unwrap_or [] t.exclude;
  post_up = unwrap_or [] t.post_up;
  pre_down = unwrap_or [] t.pre_down;
}

abbrev pub max_attempts_of : Option SelfDeser → Result MaxAttempts
max_attempts_of none = ok inf
max_attempts_of (some v) = deserialize v

module _ (F : F64) where
  unfoldable pub retry_of_table : RetryTable F → Result (RetryConfig F)
  unfolding deserialize
  retry_of_table t = and_then (max_attempts_of t.max_attempts) (λ m. ok (record {
    max_attempts = m;
    initial_delay_ms = unwrap_or 1000 t.initial_delay_ms;
    backoff = unwrap_or (F.of_nat 2) t.backoff;
    max_delay_ms = unwrap_or 30000 t.max_delay_ms;
    health_interval_ms = unwrap_or 5000 t.health_interval_ms;
  }))

  abbrev pub retry_section : Option (RetryTable F) → Result (RetryConfig F)
  retry_section none = ok (default_retry F)
  retry_section (some t) = retry_of_table t

  abbrev pub vpn_section : Option VpnTable → VpnConfig
  vpn_section none = default_vpn
  vpn_section (some t) = vpn_of_table t

  abbrev pub connection_section : Option (Option ℕ) → ConnectionConfig
  connection_section none = default_connection
  connection_section (some t) = record { port = unwrap_or default_port t }

  unfoldable pub app_of_table : AppTable F → Result (AppConfig F)
  unfolding retry_of_table vpn_of_table default_retry default_vpn default_connection
  app_of_table t = and_then (retry_section t.retry) (λ retry. ok (record {
    vpn = vpn_section t.vpn;
    connection = connection_section t.connection;
    retry = retry;
  }))

  -- `read_to_string` and the TOML parser are parameters.
  unfoldable pub load :
      {W : Type 0} → (Str → Exec W Str) → (Str → Result (AppTable F)) → Str → Exec W (AppConfig F)
  unfolding app_of_table
  load read_to_string parse_toml path = do
    content ← read_to_string path
    table ← lift (parse_toml content)
    config ← lift (app_of_table table)
    pure config

-- ===== src/Config/Sections.antt =====
-- The defaults of the configuration file: `impl Default` of each section, and the `default = ...` of
-- each of its keys.
use x2ssh.Base.{◌≡◌, refl, ap, ◌∙◌, Option, none, some, Str, Result, ok, Exec}
use x2ssh.Retry.Float.{F64}
use x2ssh.Base.{ℕ, and_then}
use x2ssh.Config.{
  VpnConfig, ConnectionConfig, RetryConfig, AppConfig, default_vpn, default_connection,
  default_retry,
}
use x2ssh.Config.Load.{
  vpn_section, connection_section, retry_section, VpnTable, RetryTable, AppTable, app_of_table,
  vpn_of_table, retry_of_table, load,
}

abbrev pub empty_vpn : VpnTable
empty_vpn = record {
  client_address = none;
  server_address = none;
  client_tun = none;
  mtu = none;
  exclude = none;
  post_up = none;
  pre_down = none;
}

abbrev pub or_empty {ℓ} : {A : Type ℓ} → A → Option A → Option A
or_empty d none = some d
or_empty d (some a) = some a

module _ (F : F64) where
  abbrev pub empty_retry : RetryTable F
  empty_retry = record {
    max_attempts = none;
    initial_delay_ms = none;
    backoff = none;
    max_delay_ms = none;
    health_interval_ms = none;
  }

  -- The file with an empty section for each one that is missing.
  abbrev pub with_empty_sections : AppTable F → AppTable F
  with_empty_sections t = record {
    vpn = or_empty empty_vpn t.vpn;
    connection = or_empty none t.connection;
    retry = or_empty empty_retry t.retry;
  }

  vpn_empty : (v : Option VpnTable) → vpn_section F (or_empty empty_vpn v) ≡ vpn_section F v
  unfolding vpn_of_table default_vpn
  vpn_empty none = refl
  vpn_empty (some v) = refl

  connection_empty :
      (c : Option (Option ℕ)) → connection_section F (or_empty none c) ≡ connection_section F c
  unfolding default_connection
  connection_empty none = refl
  connection_empty (some c) = refl

  retry_empty :
      (r : Option (RetryTable F)) → retry_section F (or_empty empty_retry r) ≡ retry_section F r
  unfolding retry_of_table default_retry
  retry_empty none = refl
  retry_empty (some r) = refl

  abbrev app_of : VpnConfig → ConnectionConfig → Result (RetryConfig F) → Result (AppConfig F)
  app_of vpn connection retry =
      and_then retry (λ r. ok (record { vpn = vpn; connection = connection; retry = r }))

  app_of_table-empty : (t : AppTable F) → app_of_table F (with_empty_sections t) ≡ app_of_table F t
  unfolding app_of_table
  app_of_table-empty t =
      let connection = connection_section F (or_empty none t.connection) in
      let retry = retry_section F (or_empty empty_retry t.retry) in
      let vpn = vpn_section F t.vpn in
      ap (λ v. app_of v connection retry) (vpn_empty t.vpn)
      ∙ ap (λ c. app_of vpn c retry) (connection_empty t.connection)
      ∙ ap (app_of vpn (connection_section F t.connection)) (retry_empty t.retry)

  -- A file and a copy of it that has an empty section for each one that is missing are loaded with
  -- the same result, an error included: the defaults of the keys are those of the sections.
  pub load_empty_sections :
      {W : Type 0} (read_to_string : Str → Exec W Str) (parse_toml : Str → Result (AppTable F))
      (path copy content content' : Str) (t : AppTable F) (w w' : W)
      → read_to_string path w ≡ (ok content, w')
      → read_to_string copy w ≡ (ok content', w')
      → parse_toml content ≡ ok t
      → parse_toml content' ≡ ok (with_empty_sections t)
      → load F read_to_string parse_toml copy w ≡ load F read_to_string parse_toml path w
  unfolding load
  load_empty_sections read_to_string parse_toml path copy content content' t w w' r r' p p' =
      rw (r, r', p, p', app_of_table-empty t)

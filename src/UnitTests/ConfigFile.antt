-- ===== src/UnitTests/ConfigFile.antt =====
-- x2ssh/src/config.rs: its tests of `AppConfig::load`, for every TOML parser that reads their files.
use x2ssh.Base.{
  ℕ, List, [], ◌∷◌, ◌≡◌, refl, Bool, true, false, ◌&&◌, ◌==◌, none, some, Str, codes, str_eq, Error,
  Result, ok, err, inl, inr, Result-cases,
}
use x2ssh.UnitTests.{unwrap}
use x2ssh.Retry.Float.{F64}
use x2ssh.Config.{
  AppConfig, MaxAttempts, inf, count, SelfDeser, text, int, deserialize, default_app, default_vpn,
  default_connection, default_retry,
}
use x2ssh.Config.Load.{AppTable, load, vpn_of_table, retry_of_table, app_of_table}
use x2ssh.Config.Sections.{empty_vpn, empty_retry}

abbrev is_inf : MaxAttempts → Bool
is_inf inf = true
is_inf (count n) = false

abbrev is_count : ℕ → MaxAttempts → Bool
is_count n inf = false
is_count n (count m) = m == n

-- A vector of one text.
abbrev is_one : Str → List Str → Bool
is_one s [] = false
is_one s (x ∷ []) = str_eq x s
is_one s (x ∷ y ∷ xs) = false

abbrev full_toml : Str
full_toml =
    codes
      "\n[vpn]\nclient_address = \"192.168.100.2/24\"\nserver_address = \"192.168.100.1/24\"\nclient_tun = \"wg-x2ssh\"\nmtu = 1280\nexclude = [\"10.0.0.0/8\"]\npost_up = [\"sysctl -w net.ipv4.ip_forward=1\"]\npre_down = [\"iptables -t nat -D POSTROUTING -o eth0 -j MASQUERADE\"]\n\n[connection]\nport = 2222\n\n[retry]\nmax_attempts = 5\ninitial_delay_ms = 500\nbackoff = 1.5\nmax_delay_ms = 10000\nhealth_interval_ms = 3000\n"

abbrev partial_toml : Str
partial_toml = codes "\n[vpn]\nclient_address = \"10.9.0.2/24\"\n"

abbrev inf_toml : Str
inf_toml = codes "[retry]\nmax_attempts = \"inf\""

abbrev five_toml : Str
five_toml = codes "[retry]\nmax_attempts = 5"

abbrev zero_toml : Str
zero_toml = codes "[retry]\nmax_attempts = 0"

abbrev invalid_toml : Str
invalid_toml = codes "[retry]\nmax_attempts = \"invalid\""

-- The parser, `==` of f64, and the literal 1.5.
module _ (F : F64) (parse : Str → Result (AppTable F)) (num_eq : F.Num → F.Num → Bool)
    (one_and_half : F.Num) where
  -- Reading a file of this content, as `write_temp_config` makes it.
  load_temp : Str → Result (AppConfig F)
  unfolding load
  load_temp content = (load F (λ path w. (ok w, w)) parse (codes "temp") content).0

  abbrev is_err : Result (AppConfig F) → Bool
  is_err (ok config) = false
  is_err (err e) = true

  test_parse_full_config : Bool
  unfolding load_temp
  test_parse_full_config = unwrap (load_temp full_toml) (λ config.
      str_eq config.vpn.client_address (codes "192.168.100.2/24")
      && (str_eq config.vpn.server_address (codes "192.168.100.1/24")
          && (str_eq config.vpn.client_tun (codes "wg-x2ssh")
              && (config.vpn.mtu == 1280
                  && (is_one (codes "10.0.0.0/8") config.vpn.exclude
                      && (is_one (codes "sysctl -w net.ipv4.ip_forward=1") config.vpn.post_up
                          && (is_one (codes "iptables -t nat -D POSTROUTING -o eth0 -j MASQUERADE")
                                config.vpn.pre_down
                              && (config.connection.port == 2222
                                  && (is_count 5 config.retry.max_attempts
                                      && (config.retry.initial_delay_ms == 500
                                          && (num_eq config.retry.backoff one_and_half
                                              && (config.retry.max_delay_ms == 10000
                                                  && config.retry.health_interval_ms
                                                    == 3000))))))))))))

  test_parse_partial_config_uses_defaults : Bool
  unfolding load_temp
  test_parse_partial_config_uses_defaults = unwrap (load_temp partial_toml) (λ config.
      str_eq config.vpn.client_address (codes "10.9.0.2/24")
      && (str_eq config.vpn.client_tun (codes "tun-x2ssh")
          && (config.connection.port == 22 && is_inf config.retry.max_attempts)))

  test_parse_empty_file_all_defaults : Bool
  unfolding load_temp
  test_parse_empty_file_all_defaults = unwrap (load_temp []) (λ config.
      str_eq config.vpn.client_address (codes "10.8.0.2/24")
      && (config.vpn.mtu == 1400
          && (config.connection.port == 22 && is_inf config.retry.max_attempts)))

  test_default_config : Bool
  unfolding default_app
  test_default_config =
      let config = default_app F in
      str_eq config.vpn.client_address (codes "10.8.0.2/24") && config.vpn.mtu == 1400

  test_max_attempts_inf : Bool
  unfolding load_temp
  test_max_attempts_inf = unwrap (load_temp inf_toml) (λ config. is_inf config.retry.max_attempts)

  test_max_attempts_count : Bool
  unfolding load_temp
  test_max_attempts_count =
      unwrap (load_temp five_toml) (λ config. is_count 5 config.retry.max_attempts)

  test_max_attempts_zero_allowed : Bool
  unfolding load_temp
  test_max_attempts_zero_allowed =
      unwrap (load_temp zero_toml) (λ config. is_count 0 config.retry.max_attempts)

  test_invalid_max_attempts_fails : Bool
  unfolding load_temp
  test_invalid_max_attempts_fails = is_err (load_temp invalid_toml)

  -- `e` is the error for a file that is not there.
  test_missing_file_uses_default : Error → Bool
  unfolding load
  test_missing_file_uses_default e =
      is_err
        (load F (λ path (w : Unit {0}). (err e, w)) parse (codes "/nonexistent/config.toml") tt).0

  abbrev empty_table : AppTable F
  empty_table = record { vpn = none; connection = none; retry = none }

  abbrev with_attempts : SelfDeser → AppTable F
  with_attempts attempts = record empty_table {
    retry = some (record (empty_retry F) { max_attempts = some attempts });
  }

  abbrev full_table : AppTable F
  full_table = record {
    vpn = some (record {
      client_address = some (codes "192.168.100.2/24");
      server_address = some (codes "192.168.100.1/24");
      client_tun = some (codes "wg-x2ssh");
      mtu = some 1280;
      exclude = some (codes "10.0.0.0/8" ∷ []);
      post_up = some (codes "sysctl -w net.ipv4.ip_forward=1" ∷ []);
      pre_down = some (codes "iptables -t nat -D POSTROUTING -o eth0 -j MASQUERADE" ∷ []);
    });
    connection = some (some 2222);
    retry = some (record {
      max_attempts = some (int 5);
      initial_delay_ms = some 500;
      backoff = some one_and_half;
      max_delay_ms = some 10000;
      health_interval_ms = some 3000;
    });
  }

  load_temp-app_of_table :
      (content : Str) (table : AppTable F)
      → parse content ≡ ok table
      → load_temp content ≡ app_of_table F table
  unfolding load_temp load
  load_temp-app_of_table content table h = elim (Result-cases (app_of_table F table)) [
    | inl (config, q) ↦ rw (h, q) refl
    | inr (e, q) ↦ rw (h, q) refl
  ]

  test_parse_full_config_passes :
      parse full_toml ≡ ok full_table
      → num_eq one_and_half one_and_half ≡ true
      → test_parse_full_config ≡ true
  unfolding test_parse_full_config app_of_table vpn_of_table retry_of_table deserialize
  test_parse_full_config_passes h same =
      rw (load_temp-app_of_table full_toml full_table h) (rw same refl)

  test_parse_partial_config_passes :
      parse partial_toml
        ≡ ok (record empty_table {
          vpn = some (record empty_vpn { client_address = some (codes "10.9.0.2/24") });
        })
      → test_parse_partial_config_uses_defaults ≡ true
  unfolding test_parse_partial_config_uses_defaults app_of_table vpn_of_table default_connection
      default_retry
  test_parse_partial_config_passes h = rw (load_temp-app_of_table partial_toml _ h) refl

  test_parse_empty_file_passes :
      parse [] ≡ ok empty_table → test_parse_empty_file_all_defaults ≡ true
  unfolding test_parse_empty_file_all_defaults app_of_table default_vpn default_connection
      default_retry
  test_parse_empty_file_passes h = rw (load_temp-app_of_table [] empty_table h) refl

  test_default_config_passes : test_default_config ≡ true
  unfolding test_default_config default_app
  test_default_config_passes = refl

  test_max_attempts_inf_passes :
      parse inf_toml ≡ ok (with_attempts (text (codes "inf"))) → test_max_attempts_inf ≡ true
  unfolding test_max_attempts_inf app_of_table retry_of_table deserialize
  test_max_attempts_inf_passes h = rw (load_temp-app_of_table inf_toml _ h) refl

  test_max_attempts_count_passes :
      parse five_toml ≡ ok (with_attempts (int 5)) → test_max_attempts_count ≡ true
  unfolding test_max_attempts_count app_of_table retry_of_table deserialize
  test_max_attempts_count_passes h = rw (load_temp-app_of_table five_toml _ h) refl

  test_max_attempts_zero_passes :
      parse zero_toml ≡ ok (with_attempts (int 0)) → test_max_attempts_zero_allowed ≡ true
  unfolding test_max_attempts_zero_allowed app_of_table retry_of_table deserialize
  test_max_attempts_zero_passes h = rw (load_temp-app_of_table zero_toml _ h) refl

  test_invalid_max_attempts_passes :
      parse invalid_toml ≡ ok (with_attempts (text (codes "invalid")))
      → test_invalid_max_attempts_fails ≡ true
  unfolding test_invalid_max_attempts_fails app_of_table retry_of_table deserialize
  test_invalid_max_attempts_passes h = rw (load_temp-app_of_table invalid_toml _ h) refl

  test_missing_file_passes : (e : Error) → test_missing_file_uses_default e ≡ true
  unfolding test_missing_file_uses_default load
  test_missing_file_passes e = refl

-- ===== src/Cli/File.antt =====
-- What `vpn_config` takes from the configuration file.
use x2ssh.Base.{◌≡◌, refl, Bool, true, false, Option, none, some, Str, Exec, pure, ◌>>=◌, >>=-congr}
use x2ssh.Retry.Float.{F64}
use x2ssh.Config.{VpnConfig, AppConfig}
use x2ssh.Cli.{Cli, load_existing, file_config, vpn_config}

module _ {F : F64} {W : Type 0} (exists : Str → W → Bool)
    (load load' : Str → Exec W (AppConfig F)) where
  abbrev pub vpn_section : (Str → Exec W (AppConfig F)) → Str → Exec W VpnConfig
  vpn_section l path = do app_config ← l path; pure app_config.vpn

  module _ (same : (path : Str) (w : W) → vpn_section load path w ≡ vpn_section load' path w) where
    load_existing-congr :
        (path : Str) (found : Bool) (w : W)
        → load_existing exists load path found w ≡ load_existing exists load' path found w
    unfolding load_existing
    load_existing-congr path true w = same path w
    load_existing-congr path false w = refl

    file_config-congr :
        (path : Option Str) (w : W)
        → file_config exists load path w ≡ file_config exists load' path w
    unfolding file_config
    file_config-congr none w = refl
    file_config-congr (some path) w = load_existing-congr path (exists path w) w

    pub vpn_config-congr :
        (self : Cli F) (w : W) → vpn_config exists load self w ≡ vpn_config exists load' self w
    unfolding vpn_config
    vpn_config-congr self w =
        >>=-congr (file_config exists load self.config) (file_config exists load' self.config) _ w
          (file_config-congr self.config w)

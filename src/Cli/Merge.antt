-- ===== src/Cli/Merge.antt =====
-- `vpn_config`: command line before configuration file before defaults.
use x2ssh.Base.{List, [], ◌∷◌, ◌≡◌, refl, Bool, true, false, Option, none, some, Str}
use x2ssh.Base.{Error, ok, err, Exec}
use x2ssh.Retry.Float.{F64}
use x2ssh.Config.{VpnConfig, AppConfig, default_vpn}
use x2ssh.Cli.{Cli, apply_overrides, vpn_config, override, override_list}

-- The first of the sources that has a value.
abbrev pub first {ℓ} : {A : Type ℓ} → Option A → A → A
first (some a) b = a
first none b = b

abbrev pub first_full {ℓ} : {A : Type ℓ} → List A → List A → List A
first_full [] ys = ys
first_full (x ∷ xs) ys = x ∷ xs

override-first {ℓ} : {A : Type ℓ} (o : Option A) (a : A) → override o a ≡ first o a
override-first (some x) a = refl
override-first none a = refl

override_list-first_full {ℓ} :
    {A : Type ℓ} (xs ys : List A) → override_list xs ys ≡ first_full xs ys
override_list-first_full [] ys = refl
override_list-first_full (x ∷ xs) ys = refl

module _ {F : F64} (self : Cli F) where
  -- What the command line makes of a configuration, field by field.
  abbrev pub Merged : VpnConfig → VpnConfig → Type 0
  Merged base c =
      (c.client_address ≡ first self.vpn_client_address base.client_address)
      × (c.server_address ≡ first self.vpn_server_address base.server_address)
      × (c.client_tun ≡ first self.vpn_client_tun base.client_tun)
      × (c.mtu ≡ first self.vpn_mtu base.mtu)
      × (c.exclude ≡ first_full self.vpn_exclude base.exclude)
      × (c.post_up ≡ first_full self.vpn_post_up base.post_up)
      × (c.pre_down ≡ first_full self.vpn_pre_down base.pre_down)

  apply_overrides-Merged : (base : VpnConfig) → Merged base (apply_overrides self base)
  unfolding apply_overrides
  apply_overrides-Merged base = (
    override-first self.vpn_client_address _,
    override-first self.vpn_server_address _,
    override-first self.vpn_client_tun _,
    override-first self.vpn_mtu _,
    override_list-first_full self.vpn_exclude _,
    override_list-first_full self.vpn_post_up _,
    override_list-first_full self.vpn_pre_down _,
  )

  module _ {W : Type 0} (exists : Str → W → Bool) (load : Str → Exec W (AppConfig F)) (w : W) where
    -- Where the configuration comes from that the command line overrides, and the world after it:
    -- no file is named, the named file does not exist, or it is loaded.
    pub data Source (base : VpnConfig) (w' : W) : Type 0 where
      unnamed : self.config ≡ none → base ≡ default_vpn → w' ≡ w → Source base w'
      missing :
          (path : Str)
          → self.config ≡ some path
          → exists path w ≡ false
          → base ≡ default_vpn
          → w' ≡ w
          → Source base w'
      loaded :
          (path : Str) (app : AppConfig F)
          → self.config ≡ some path
          → exists path w ≡ true
          → load path w ≡ (ok app, w')
          → base ≡ app.vpn
          → Source base w'

    -- `vpn_config` takes each setting from the command line if it is there, and from the loaded
    -- file otherwise; the defaults stand in for a file that is not named or does not exist.
    pub vpn_config-Merged :
        (base : VpnConfig) (w' : W)
        → Source base w'
        → (vpn_config exists load self w ≡ (ok (apply_overrides self base), w'))
          × Merged base (apply_overrides self base)
    unfolding vpn_config
    vpn_config-Merged base w' (unnamed h hb hw) = (rw (h, hb, hw), apply_overrides-Merged base)
    vpn_config-Merged base w' (missing path h he hb hw) =
        (rw (h, hb, hw) (rw he), apply_overrides-Merged base)
    vpn_config-Merged base w' (loaded path app h he hl hb) =
        (rw (h, hb) (rw he (rw hl)), apply_overrides-Merged base)

    -- A file that exists and does not load is an error, whatever the command line gives.
    pub vpn_config-err :
        (path : Str) (e : Error) (w' : W)
        → self.config ≡ some path
        → exists path w ≡ true
        → load path w ≡ (err e, w')
        → vpn_config exists load self w ≡ (err e, w')
    unfolding vpn_config
    vpn_config-err path e w' h he hl = rw h (rw he (rw hl))

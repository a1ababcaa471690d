-- ===== src/Main/Sections.antt =====
-- Which sections of the configuration file `main` uses.
use x2ssh.Base.{
  ◌≡◌, refl, sym, ap, ◌∙◌, Bool, true, false, Option, none, some, Str, Result, ok, err,
}
use x2ssh.Base.{
  and_then, Exec, pure, lift, ◌>>=◌, >>=-congr, >>=-congr_right, Result-cases, inl, inr,
}
use x2ssh.Net.{IpAddr, IpNets}
use x2ssh.Ssh.{Ssh}
use x2ssh.Retry.Float.{F64}
use x2ssh.Config.{VpnConfig}
use x2ssh.Config.Load.{AppTable, app_of_table, load}
use x2ssh.Cli.{Cli, vpn_config}
use x2ssh.Cli.File.{vpn_section, vpn_config-congr}
use x2ssh.TunRs.{Tun}
use x2ssh.Transport.{Transport}
use x2ssh.Vpn.Session.{Host}
use x2ssh.Main.{
  Outside, Schedule, start_proxy, vpn_target, run_target, start_vpn, finishes, with_mode, main,
}

-- The VPN section of a file's text, or the error of the first section that is wrong.
abbrev pub vpn_of : (F : F64) → (Str → Result (AppTable F)) → Str → Result VpnConfig
vpn_of F parse s = and_then (and_then (parse s) (app_of_table F)) (λ c. ok c.vpn)

module _ (F : F64) {W : Type 0} (read : Str → Exec W Str) where
  -- Reading the section of a file is reading the file's text, and the section of that.
  section-eq :
      (parse : Str → Result (AppTable F)) (exists : Str → W → Bool) (path : Str) (w : W)
      → (load F read parse path >>= λ c. pure c.vpn) w
        ≡ (read path >>= λ s. lift (vpn_of F parse s)) w
  unfolding load
  section-eq parse exists path w = elim (Result-cases (read path w).0) [
    | inr (e, q) ↦ rw q refl
    | inl (s, q) ↦ elim (Result-cases (parse s)) [
      | inr (e, q₂) ↦ rw (q, q₂) refl
      | inl (t, q₂) ↦ elim (Result-cases (app_of_table F t)) [
        | inr (e, q₃) ↦ rw (q, q₂, q₃) refl
        | inl (c, q₃) ↦ rw (q, q₂, q₃) refl
      ]
    ]
  ]

module _ (F : F64) (N : IpNets) {W : Type 0} (S : Ssh W) (H : Host W) (O : Outside F W)
    (parse parse' : Str → Result (AppTable F)) (T : Tun) (sched : Schedule F N S H O T)
    (same : (s : Str) → vpn_of F parse s ≡ vpn_of F parse' s) where
  loads-same :
      (path : Str) (w : W)
      → vpn_section O.exists
          (load F O.read_to_string parse)
          (load F O.read_to_string parse')
          (load F O.read_to_string parse)
          path
          w
        ≡ vpn_section O.exists
            (load F O.read_to_string parse)
            (load F O.read_to_string parse')
            (load F O.read_to_string parse')
            path
            w
  loads-same path w =
      section-eq F O.read_to_string parse O.exists path w
      ∙ >>=-congr_right (O.read_to_string path) _ _ w
          (λ s. ap (λ r. (r, (O.read_to_string path w).1)) (same s))
      ∙ sym (section-eq F O.read_to_string parse' O.exists path w)

  vpn_target-congr :
      (cli : Cli F) (w : W)
      → vpn_target F N S H O T parse sched cli w ≡ vpn_target F N S H O T parse' sched cli w
  unfolding vpn_target
  vpn_target-congr cli w =
      >>=-congr (vpn_config O.exists (load F O.read_to_string parse) cli)
        (vpn_config O.exists (load F O.read_to_string parse') cli) _ w
        (vpn_config-congr O.exists _ _ loads-same cli w)

  run_target-congr :
      (r : Result (VpnConfig × Transport F S × IpAddr)) (w : W)
      → run_target F N S H O T parse sched r w ≡ run_target F N S H O T parse' sched r w
  unfolding run_target
  run_target-congr (ok target) w = refl
  run_target-congr (err e) w = refl

  start_vpn-congr :
      (cli : Cli F) (w : W)
      → start_vpn F N S H O T parse sched cli w ≡ start_vpn F N S H O T parse' sched cli w
  unfolding start_vpn
  start_vpn-congr cli w =
      ap (λ t. run_target F N S H O T parse sched t.0 t.1) (vpn_target-congr cli w)
      ∙ run_target-congr _ _

  finishes-congr :
      (r : Option (Result (Unit {0})))
      → finishes F N S H O T parse sched r ≡ finishes F N S H O T parse' sched r
  finishes-congr none = refl
  finishes-congr (some (ok _)) = refl
  finishes-congr (some (err e)) = refl

  with_mode-congr :
      (cli : Cli F) (socks : Option Str) (vpn : Bool) (w : W)
      → with_mode F N S H O T parse sched cli socks vpn w
        ≡ with_mode F N S H O T parse' sched cli socks vpn w
  unfolding with_mode
  with_mode-congr cli none false w = refl
  with_mode-congr cli none true w =
      ap (λ r. (finishes F N S H O T parse sched r.0, r.1)) (start_vpn-congr cli w)
      ∙ ap (λ r. (r, (start_vpn F N S H O T parse' sched cli w).1)) (finishes-congr _)
  with_mode-congr cli (some a) vpn w =
      elim (Result-cases (start_proxy F N S H O sched.rounds cli w).0) [
        | inl (proxy, q) ↦ rw q refl
        | inr (e, q) ↦ rw q refl
      ]

  -- `main` uses nothing of the configuration file but its VPN section: with two readings of the
  -- file that agree in this section, and in whether the file is valid, it does the same, whatever
  -- their connection and retry sections say.
  pub main-congr :
      (cli : Cli F) (w : W)
      → main F N S H O T parse sched cli w ≡ main F N S H O T parse' sched cli w
  unfolding main
  main-congr cli w = with_mode-congr cli cli.socks_addr cli.vpn w

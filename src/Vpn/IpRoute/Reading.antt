-- ===== src/Vpn/IpRoute/Reading.antt =====
-- x2ssh/src/vpn/routing.rs: what `get_default_route` reads in a line that `ip` prints.
use x2ssh.Base.{ℕ, ◌<◌, ◌≡◌, refl, ap, ◌∙◌, List, [], ◌∷◌, ◌++◌, false}
use x2ssh.Base.{none, some, Str, codes, str_eq, eq_of_str_eq, is_empty, All, Bool-cases, inl, inr}
use x2ssh.Base.{ok, Exec, lift, >>=-ok}
use x2ssh.Net.{IpAddr, v4, IpNets, show_ip}
use x2ssh.Net.Parse.{is_whitespace, first_line, parse_ipv4}
use x2ssh.Net.Parse.Words.{IsWord, unwords, split_whitespace-unwords, first_line-unwords}
use x2ssh.Net.Parse.Octets.{parse_ipv4-show_ip, show_ip-NoSpace}
use x2ssh.Vpn.IpRoute.{Found, scan, get_default_route, route_of_line, route_of}

-- A word that the loop takes for no keyword.
abbrev pub IsFree : Str → Type 0
IsFree s = (str_eq s (codes "via") ≡ false) × (str_eq s (codes "dev") ≡ false)

scan-IsFree : (ws : List Str) (found : Found) → All IsFree ws → scan ws found ≡ found
unfolding scan
scan-IsFree [] found h = refl
scan-IsFree (s ∷ []) found h = refl
scan-IsFree (s ∷ next ∷ rest) (gateway, interface) ((via, dev), h) =
    rw (via, dev) (scan-IsFree (next ∷ rest) (gateway, interface) h)

not-address :
    (s t : Str) (ip : IpAddr) → parse_ipv4 s ≡ some ip → parse_ipv4 t ≡ none → str_eq s t ≡ false
not-address s t ip hs ht = elim (Bool-cases (str_eq s t)) [
  | inl same ↦ let e : s ≡ t = eq_of_str_eq s t same in absurd cc
  | inr different ↦ different
]

address-nonempty : (s : Str) (ip : IpAddr) → parse_ipv4 s ≡ some ip → is_empty s ≡ false
unfolding parse_ipv4
address-nonempty [] ip h = cc
address-nonempty (c ∷ s) ip h = refl

-- The words of a default route's line.
abbrev pub default_line : Str → Str → List Str → List Str
default_line gateway interface options =
    codes "default" ∷ codes "via" ∷ gateway ∷ codes "dev" ∷ interface ∷ options

scan-default_line :
    (gateway interface : Str) (options : List Str) (ip : IpAddr)
    → parse_ipv4 gateway ≡ some ip
    → All IsFree (interface ∷ options)
    → scan (default_line gateway interface options) (none, none) ≡ (some ip, some interface)
unfolding scan parse_ipv4
scan-default_line gateway interface options ip h free =
    let via = not-address gateway (codes "via") ip h refl in
    rw (via, h) (scan-IsFree (interface ∷ options) (some ip, some interface) free)

default-IsWord : IsWord (codes "default")
unfolding is_whitespace
default-IsWord = (refl, (refl, (refl, (refl, (refl, (refl, (refl, (refl, tt))))))))

via-IsWord : IsWord (codes "via")
unfolding is_whitespace
via-IsWord = (refl, (refl, (refl, (refl, tt))))

dev-IsWord : IsWord (codes "dev")
unfolding is_whitespace
dev-IsWord = (refl, (refl, (refl, (refl, tt))))

module _ (N : IpNets) {W : Type 0} (run_ip : List Str → Exec W Str) where
  route_of_line-unwords :
      (ws : List Str) (ip : IpAddr) (interface : Str) (net : N.IpNet)
      → All IsWord ws
      → scan ws (none, none) ≡ (some ip, some interface)
      → N.parse_net (codes "0.0.0.0/0") ≡ ok net
      → route_of_line N run_ip (some (unwords ws))
        ≡ ok (some (record { destination = net; gateway = some ip; interface = interface }))
  unfolding route_of_line route_of
  route_of_line-unwords ws ip interface net words scanned h =
      ap (λ parts. route_of N run_ip (scan parts (none, none))) (split_whitespace-unwords ws words)
      ∙ ap (route_of N run_ip) scanned
      ∙ rw (h, route_of) refl

  -- When `ip route show default` prints first the line `default via GATEWAY dev INTERFACE`, with
  -- the text of an IPv4 address for GATEWAY and any options behind it, then `get_default_route`
  -- gives the route with that address and that interface. No word from INTERFACE on is `via` or
  -- `dev`, each is a word without white space, and a space follows each word.
  pub get_default_route-unwords :
      (a b c d : ℕ) (interface : Str) (options : List Str) (rest : Str) (w w' : W) (net : N.IpNet)
      → a < 256
      → b < 256
      → c < 256
      → d < 256
      → All IsWord (interface ∷ options)
      → All IsFree (interface ∷ options)
      → N.parse_net (codes "0.0.0.0/0") ≡ ok net
      → run_ip (codes "route" ∷ codes "show" ∷ codes "default" ∷ []) w ≡ (
        ok (unwords (default_line (show_ip N (v4 a b c d)) interface options) ++ (10 ∷ rest)),
        w',
      )
      → get_default_route N run_ip w ≡ (
        ok (
            some
              (record { destination = net; gateway = some (v4 a b c d); interface = interface })),
        w',
      )
  unfolding get_default_route
  get_default_route-unwords a b c d interface options rest w w' net ha hb hc hd words free h
        printed =
      let gateway = show_ip N (v4 a b c d) in
      let line = default_line gateway interface options in
      let read = parse_ipv4-show_ip N a b c d ha hb hc hd in
      let address : IsWord gateway =
        (address-nonempty gateway (v4 a b c d) read, show_ip-NoSpace N a b c d ha hb hc hd) in
      let spelled : All IsWord line =
        (default-IsWord, (via-IsWord, (address, (dev-IsWord, words)))) in
      let first =
        first_line-unwords (codes "default")
          (codes "via" ∷ gateway ∷ codes "dev" ∷ interface ∷ options) rest spelled in
      let scanned = scan-default_line gateway interface options (v4 a b c d) read free in
      let route =
        ap (route_of_line N run_ip) first
        ∙ route_of_line-unwords line (v4 a b c d) interface net spelled scanned h in
      >>=-ok (run_ip (codes "route" ∷ codes "show" ∷ codes "default" ∷ []))
        (λ stdout. lift (route_of_line N run_ip (first_line stdout))) w printed
      ∙ ap (λ r. (r, w')) route

-- ===== src/Examples/Routes.antt =====
-- The default route's line.
use x2ssh.Base.{◌≡◌, refl, arith, List, [], ◌∷◌, ◌++◌, some, Str, codes, decimal, Result, ok, All}
use x2ssh.Net.{show_ip}
use x2ssh.Net.Parse.{is_whitespace}
use x2ssh.Net.Parse.Words.{IsWord}
use x2ssh.Vpn.IpRoute.{get_default_route}
use x2ssh.Vpn.IpRoute.Reading.{IsFree, get_default_route-unwords}
use x2ssh.Examples.World.{World, calm, gateway, nets}

-- `ip` prints two default routes.
abbrev print_routes : List Str → World → Result Str × World
print_routes cmd w = (
  ok (codes "default via 192.168.0.1 dev eth0 metric 100 \ndefault via 10.0.0.1 dev wlan0 \n"),
  record w { routes = w.routes ++ (cmd ∷ []) },
)

abbrev tail : List Str
tail = codes "eth0" ∷ codes "metric" ∷ codes "100" ∷ []

tail-IsWord : All IsWord tail
unfolding is_whitespace
tail-IsWord = (
  (refl, (refl, (refl, (refl, (refl, tt))))),
  (
    (refl, (refl, (refl, (refl, (refl, (refl, (refl, tt))))))),
    ((refl, (refl, (refl, (refl, tt)))), tt),
  ),
)

tail-IsFree : All IsFree tail
tail-IsFree = ((refl, refl), ((refl, refl), ((refl, refl), tt)))

get_default_route-unwords_example : get_default_route nets print_routes calm ≡ (
  ok (
      some (record {
        destination = codes "0.0.0.0/0";
        gateway = some gateway;
        interface = codes "eth0";
      })),
  record calm {
    routes = calm.routes ++ ((codes "route" ∷ codes "show" ∷ codes "default" ∷ []) ∷ []);
  },
)
unfolding show_ip decimal
get_default_route-unwords_example =
    get_default_route-unwords nets print_routes 192 168 0 1 (codes "eth0")
      (codes "metric" ∷ codes "100" ∷ []) (codes "default via 10.0.0.1 dev wlan0 \n") calm
      (record calm {
        routes = calm.routes ++ ((codes "route" ∷ codes "show" ∷ codes "default" ∷ []) ∷ []);
      })
      (codes "0.0.0.0/0") (omega arith) (omega arith) (omega arith) (omega arith) tail-IsWord
      tail-IsFree refl refl

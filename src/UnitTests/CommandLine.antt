-- ===== src/UnitTests/CommandLine.antt =====
-- x2ssh/src/main.rs: its tests of what the code makes of the arguments, for every clap that reads
-- these. Those that only look at what clap has read are left out.
use x2ssh.Base.{
  List, [], ◌∷◌, ◌≡◌, refl, Bool, true, ◌&&◌, ◌==◌, some, Str, codes, str_eq, Result, ok,
}
use x2ssh.UnitTests.{unwrap}
use x2ssh.Retry.Float.{F64}
use x2ssh.Cli.{Cli, SocketAddr, parse_user_host, parse_u16, socks_socket_addr}

test_user_host_parsing : Bool
unfolding parse_user_host
test_user_host_parsing =
    unwrap (parse_user_host (codes "alice@server.com"))
      (λ x. str_eq x.0 (codes "alice") && str_eq x.1 (codes "server.com"))

test_user_host_parsing_passes : test_user_host_parsing ≡ true
unfolding test_user_host_parsing parse_user_host
test_user_host_parsing_passes = refl

abbrev port_args : List Str
port_args = codes "x2ssh" ∷ codes "-D" ∷ codes "1080" ∷ codes "user@host.com" ∷ []

abbrev full_args : List Str
full_args = codes "x2ssh" ∷ codes "-D" ∷ codes "127.0.0.1:8080" ∷ codes "user@host.com" ∷ []

module _ (F : F64) (try_parse_from : List Str → Result (Cli F))
    (parse_addr : Str → Result SocketAddr) where
  test_socks_addr_port_only : Bool
  unfolding socks_socket_addr
  test_socks_addr_port_only =
      unwrap (try_parse_from port_args)
        (λ cli. unwrap (socks_socket_addr parse_addr cli) (λ addr. addr.port == 1080))

  test_socks_addr_full : Bool
  unfolding socks_socket_addr
  test_socks_addr_full =
      unwrap (try_parse_from full_args)
        (λ cli. unwrap (socks_socket_addr parse_addr cli) (λ addr. addr.port == 8080))

  test_socks_addr_port_only_passes :
      (cli : Cli F)
      → try_parse_from port_args ≡ ok cli
      → cli.socks_addr ≡ some (codes "1080")
      → test_socks_addr_port_only ≡ true
  unfolding test_socks_addr_port_only socks_socket_addr parse_u16
  test_socks_addr_port_only_passes cli h given = rw (h, given) refl

  test_socks_addr_full_passes :
      (cli : Cli F) (addr : SocketAddr)
      → try_parse_from full_args ≡ ok cli
      → cli.socks_addr ≡ some (codes "127.0.0.1:8080")
      → parse_addr (codes "127.0.0.1:8080") ≡ ok addr
      → addr.port ≡ 8080
      → test_socks_addr_full ≡ true
  unfolding test_socks_addr_full socks_socket_addr parse_u16
  test_socks_addr_full_passes cli addr h given parsed port = rw (h, given, parsed, port) refl

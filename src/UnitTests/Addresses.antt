-- ===== src/UnitTests/Addresses.antt =====
-- x2ssh/src/config.rs: its tests of the addresses, for every `ipnet` that reads these networks.
use x2ssh.Base.{ℕ, ◌≡◌, refl, Bool, true, false, ◌&&◌, ◌==◌, Str, codes, ok}
use x2ssh.UnitTests.{unwrap}
use x2ssh.Net.{IpAddr, v4, v6, IpNets}
use x2ssh.Config.{VpnConfig, default_vpn, parse_client_address, client_ip, server_ip, network}

-- `VpnConfig` with this client address and, for the second, this server address.
abbrev with_client : Str → VpnConfig
with_client client = record default_vpn { client_address = client }

abbrev with_both : Str → Str → VpnConfig
with_both client server = record default_vpn { client_address = client; server_address = server }

abbrev ip_eq : IpAddr → IpAddr → Bool
ip_eq (v4 a b c d) (v4 a' b' c' d') = a == a' && (b == b' && (c == c' && d == d'))
ip_eq (v4 a b c d) (v6 n) = false
ip_eq (v6 n) (v4 a b c d) = false
ip_eq (v6 m) (v6 n) = m == n

module _ (N : IpNets) where
  test_vpn_config_parse_client_address : Bool
  unfolding parse_client_address
  test_vpn_config_parse_client_address =
      unwrap (parse_client_address N (with_client (codes "10.8.0.2/24"))) (λ x.
        ip_eq x.0 (v4 10 8 0 2) && (ip_eq (N.addr x.1) (v4 10 8 0 2) && N.prefix_len x.1 == 24))

  test_vpn_config_client_ip : Bool
  unfolding client_ip
  test_vpn_config_client_ip =
      unwrap (client_ip N (with_client (codes "192.168.1.100/16")))
        (λ ip. ip_eq ip (v4 192 168 1 100))

  test_vpn_config_server_ip : Bool
  unfolding server_ip
  test_vpn_config_server_ip =
      unwrap (server_ip N (with_both (codes "10.8.0.2/24") (codes "10.8.0.1/24")))
        (λ ip. ip_eq ip (v4 10 8 0 1))

  test_vpn_config_custom_server_ip : Bool
  unfolding client_ip server_ip
  test_vpn_config_custom_server_ip =
      let config = with_both (codes "10.8.0.50/24") (codes "10.8.0.254/24") in
      unwrap (client_ip N config) (λ ip. ip_eq ip (v4 10 8 0 50))
      && unwrap (server_ip N config) (λ ip. ip_eq ip (v4 10 8 0 254))

  test_vpn_config_network : Bool
  unfolding network
  test_vpn_config_network =
      unwrap (network N (with_client (codes "10.8.0.2/24"))) (λ net. N.prefix_len net == 24)

  -- `parse` reads this text as a network of this address and prefix.
  abbrev Reads : Str → IpAddr → ℕ → Type 0
  Reads s ip prefix =
      (net : N.IpNet) × (N.parse_net s ≡ ok net) × (N.addr net ≡ ip) × (N.prefix_len net ≡ prefix)

  test_vpn_config_parse_client_address_passes :
      Reads (codes "10.8.0.2/24") (v4 10 8 0 2) 24 → test_vpn_config_parse_client_address ≡ true
  unfolding test_vpn_config_parse_client_address parse_client_address
  test_vpn_config_parse_client_address_passes (net, h, a, p) = rw (h, a, p) refl

  test_vpn_config_client_ip_passes :
      Reads (codes "192.168.1.100/16") (v4 192 168 1 100) 16 → test_vpn_config_client_ip ≡ true
  unfolding test_vpn_config_client_ip client_ip
  test_vpn_config_client_ip_passes (net, h, a, p) = rw (h, a) refl

  test_vpn_config_server_ip_passes :
      Reads (codes "10.8.0.1/24") (v4 10 8 0 1) 24 → test_vpn_config_server_ip ≡ true
  unfolding test_vpn_config_server_ip server_ip
  test_vpn_config_server_ip_passes (net, h, a, p) = rw (h, a) refl

  test_vpn_config_custom_server_ip_passes :
      Reads (codes "10.8.0.50/24") (v4 10 8 0 50) 24
      → Reads (codes "10.8.0.254/24") (v4 10 8 0 254) 24
      → test_vpn_config_custom_server_ip ≡ true
  unfolding test_vpn_config_custom_server_ip client_ip server_ip
  test_vpn_config_custom_server_ip_passes (net, h, a, p) (net', h', a', p') = rw (h, a, h', a') refl

  test_vpn_config_network_passes :
      Reads (codes "10.8.0.2/24") (v4 10 8 0 2) 24 → test_vpn_config_network ≡ true
  unfolding test_vpn_config_network network
  test_vpn_config_network_passes (net, h, a, p) = rw (h, p) refl

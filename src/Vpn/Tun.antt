-- ===== src/Vpn/Tun.antt =====
-- x2ssh/src/vpn/tun.rs: the client's TUN device. What is inside of it is TunRs.antt's.
use x2ssh.Base.{ℕ, List, Str, Exec, lift, raise, pure, ◌>>=◌, ipv6_unsupported}
use x2ssh.Net.{IpAddr, v4, v6, IpNets}
use x2ssh.TunRs.{Tun}
use x2ssh.Config.{VpnConfig, client_ip}

-- An IPv4 address is its four bytes.
abbrev pub Ipv4 : Type 0
Ipv4 = ℕ × ℕ × ℕ × ℕ

unfoldable pub ip_to_addr_prefix : Ipv4 → Ipv4 × ℕ
ip_to_addr_prefix ip = (ip, 24)

-- `build name addr prefix mtu` is the device builder of tun_rs.
module _ {W Device : Type 0} (build : Str → Ipv4 → ℕ → ℕ → Exec W Device) where
  unfoldable pub create_linux_tun : IpAddr → ℕ → Str → Exec W Device
  unfolding ip_to_addr_prefix
  create_linux_tun (v6 n) mtu name = raise ipv6_unsupported
  create_linux_tun (v4 a b c d) mtu name =
      let (addr, prefix) = ip_to_addr_prefix (a, b, c, d) in build name addr prefix mtu

  unfoldable pub create : (N : IpNets) → VpnConfig → Exec W Device
  unfolding create_linux_tun
  create N config = do
    client ← lift (client_ip N config)
    device ← create_linux_tun client config.mtu config.client_tun
    pure device

module _ (T : Tun) where
  -- The conversion of the error keeps it.
  abbrev pub recv : ℕ → Exec T.State (List ℕ)
  recv size = T.recv size

  -- How many bytes were sent is not looked at.
  abbrev pub send : List ℕ → Exec T.State (Unit {0})
  send packet = T.send packet

-- ===== src/Net.antt =====
-- IP addresses of the standard library, and the `ipnet` crate as a parameter.
pub mod Parse
use x2ssh.Base.{ℕ, List, ◌∷◌, [], ◌++◌, Str, codes, decimal, Result}

-- `std::net::IpAddr`: four bytes, or the 128 bits of an IPv6 address.
pub data IpAddr : Type 0 where
  v4 : ℕ → ℕ → ℕ → ℕ → IpAddr
  v6 : ℕ → IpAddr

-- `ipnet::IpNet`, and the text of an IPv6 address.
pub record IpNets : Type 1 where
  pub IpNet : Type 0
  pub parse_net : Str → Result IpNet
  pub addr : IpNet → IpAddr
  pub prefix_len : IpNet → ℕ
  pub show_net : IpNet → Str
  pub of_ip : IpAddr → IpNet
  pub show_v6 : ℕ → Str

module _ (N : IpNets) where
  -- `IpAddr::to_string`
  unfoldable pub show_ip : IpAddr → Str
  show_ip (v4 a b c d) =
      decimal a
      ++ (codes "." ++ (decimal b ++ (codes "." ++ (decimal c ++ (codes "." ++ decimal d)))))
  show_ip (v6 n) = N.show_v6 n

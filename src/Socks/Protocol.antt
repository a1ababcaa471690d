-- ===== src/Socks/Protocol.antt =====
-- The SOCKS5 protocol (fast_socks5) as x2ssh/src/socks.rs uses it: a parameter of the model.
use x2ssh.Base.{ℕ, List, Bool, Error, Exec}
use x2ssh.Net.{IpAddr}

pub data Socks5Command : Type 0 where
  tcp_connect : Socks5Command
  tcp_bind : Socks5Command
  udp_associate : Socks5Command

-- The states of `Socks5ServerProtocol`, and what its methods do to the world.
pub record Socks5 (W : Type 0) : Type 1 where
  pub Socket : Type 0
  pub Authenticated : Type 0
  pub CommandRead : Type 0
  pub Replied : Type 0
  pub TargetAddr : Type 0
  pub ReplyError : Type 0
  pub accept_no_auth : Socket → Exec W Authenticated
  pub read_command : Authenticated → Exec W (CommandRead × Socks5Command × TargetAddr)
  pub resolve_dns :
      CommandRead × Socks5Command × TargetAddr → Exec W (CommandRead × Socks5Command × TargetAddr)
  pub to_socket_addrs : TargetAddr → Exec W (List (IpAddr × ℕ))
  pub to_reply_error : Error → ReplyError
  pub reply_error : CommandRead → ReplyError → Exec W (Unit {0})
  pub reply_success : CommandRead → IpAddr × ℕ → Exec W Replied
  -- One turn of `transfer`, and whether it was the last.
  pub transfer : Replied → W → Bool × W

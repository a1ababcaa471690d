-- ===== src/Ssh.antt =====
-- The SSH client library (russh) as the code uses it: a parameter of the model.
use x2ssh.Base.{ℕ, Bool, List, Str, Exec}

-- `russh::ChannelMsg`; `other` is any message that the code only logs.
pub data ChannelMsg : Type 0 where
  data_msg : List ℕ → ChannelMsg
  extended_data : List ℕ → ℕ → ChannelMsg
  exit_status : ℕ → ChannelMsg
  eof : ChannelMsg
  other : ChannelMsg

-- The operations, over the state `W` of everything outside the program.
pub record Ssh (W : Type 0) : Type 1 where
  pub Key : Type 0
  pub Hash : Type 0
  pub Handle : Type 0
  pub Channel : Type 0
  pub load_secret_key : Str → Exec W Key
  pub connect : Str → Exec W Handle
  pub best_supported_rsa_hash : Handle → Exec W Hash
  pub authenticate_publickey : Handle → Str → Key → Hash → Exec W Bool
  pub channel_open_session : Handle → Exec W Channel
  -- The host and port to connect to, and those of the originator.
  pub channel_open_direct_tcpip : Handle → Str → ℕ → Str → ℕ → Exec W Channel
  pub exec : Channel → Str → Exec W (Unit {0})
  pub send_data : Channel → List ℕ → Exec W (Unit {0})
  pub send_eof : Channel → Exec W (Unit {0})
  pub close : Channel → Exec W (Unit {0})
  -- What the calls of `wait` on the channel give, up to the `None` of a closed channel.
  pub inbox : Channel → W → List ChannelMsg

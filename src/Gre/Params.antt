-- ===== src/Gre/Params.antt =====
-- `Params` of internal/gre/link_linux.go: one tunnel interface.
use gremlind.Prelude.{ℕ, Bool}
use gremlind.Prelude.Bytes.{Bytes}
use gremlind.Prelude.Int.{ℤ}
use gremlind.Net.{Addr}

-- A key is a uint32, a port a uint16, the hop limit a uint8, the MTU an int.
pub record Params : Type 0 where
  pub name : Bytes
  pub local : Addr
  pub remote : Addr
  pub key : ℕ
  pub seq : Bool
  pub mtu : ℤ
  pub hop_limit : ℕ
  pub inner_local : Addr
  pub inner_peer : Addr
  pub link_local : Addr
  pub fou_sport : ℕ
  pub fou_dport : ℕ

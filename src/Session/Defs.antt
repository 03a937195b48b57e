-- ===== src/Session/Defs.antt =====
-- The state of internal/session/manager.go: the registry, the sticky leases and the pool.
use gremlind.Prelude.{ℕ, Bool}
use gremlind.Prelude.Bytes.{Bytes}
use gremlind.Prelude.Int.{ℤ}
use gremlind.Prelude.Maps.{Map}
use gremlind.Net.{Addr}
use gremlind.Pool.{Pool}

-- `control.SessionParams`
pub record SessionParams : Type 0 where
  pub client_id : Bytes
  pub client_outer : Addr
  pub outer_mtu : ℕ
  pub requested_inner : Addr

-- `control.SessionGrant`
pub record SessionGrant : Type 0 where
  pub client_inner : Addr
  pub server_inner : Addr
  pub server_outer : Addr
  pub gre_key : ℕ
  pub tunnel_flags : ℕ
  pub mtu : ℕ
  pub session_key : ℕ

-- `Entry`. `ident` tells one `&Entry{…}` from another, as their pointers do.
pub record Entry : Type 0 where
  pub ident : ℕ
  pub client_id : Bytes
  pub if_name : Bytes
  pub client_inner : Addr
  pub client_outer : Addr
  pub gre_key : ℕ
  pub mtu : ℤ
  pub since : ℕ

-- The fields that `newWith` sets once. Times and durations count nanoseconds.
pub record Config : Type 0 where
  pub server_inner : Addr
  pub gre_local : Addr
  pub outer_mtu : ℤ
  pub mtu_cap : ℤ
  pub use_gre_key : Bool
  pub use_gre_seq : Bool
  pub lease_ttl : ℤ
  pub if_names : Map Bytes Bytes
  pub static_lease : Map Bytes Addr
  pub fou_port : ℕ

-- `Manager`: what the mutex guards, and the pool. `allocated` counts the entries made so far.
pub record Manager : Type 0 where
  pub config : Config
  pub open config use *
  pub pool : Pool
  pub sessions : Map ℕ Entry
  pub active : Map Bytes ℕ
  pub leases : Map Bytes Addr
  pub lease_times : Map Bytes ℕ
  pub allocated : ℕ

-- ===== src/Config.antt =====
-- `ValidateServer` of internal/config/config.go. The texts of addresses and prefixes are parsed by
-- net/netip: the fields stand here as what they parse to, `none` for a text that does not parse.
-- A map is checked in the order of its list, which stands for Go's arbitrary order.
pub mod Validated
pub mod Leases
pub mod Clamp
pub mod Loading
pub mod Loaded
use gremlind.Prelude.{
  ℕ, Bool, true, false, ◌&&◌, ◌||◌, not, List, [], ◌∷◌, Option, none, some, Result, ok, err, length,
  ltb, ◌==◌, Key, nat_eq, list_eq, if◌then◌else◌, ◌>>◌,
}
use gremlind.Prelude.Bytes.{Bytes}
use gremlind.Prelude.Maps.{Map, lookup, insert, is_some}
use gremlind.Net.{Addr, addr_eq, is4, Prefix, contains}
use gremlind.Gre.Names.{valid_name, is_generated_name}
use gremlind.Control.Identity.{valid_client_id}

abbrev pub min_secret_len : ℕ
min_secret_len = 32

-- A text that is to be parsed: empty, ill-formed, or its value.
pub data Text (A : Type 0) : Type 0 where
  empty : Text A
  ill_formed : Text A
  parsed : A → Text A

-- The fields that the server role checks.
pub record ServerConfig : Type 0 where
  pub gre_local_set : Bool
  pub inner_pool : Text Prefix
  pub server_inner : Text Addr
  pub psk : Bytes
  pub clients : Map Bytes Bytes
  pub interfaces : Map Bytes Bytes
  pub leases : Map Bytes (Option Addr)

pub data Error : Type 0 where
  missing invalid_pool invalid_inner inner_outside no_secret short_psk invalid_id short_secret
        invalid_iface generated_iface duplicate_iface invalid_lease wrong_family lease_outside
        server_lease duplicate_lease :
      Error

abbrev pub require : Bool → Error → Result Error (Unit {0})
require true e = ok tt
require false e = err e

unfoldable pub check_clients : Map Bytes Bytes → Result Error (Unit {0})
check_clients [] = ok tt
check_clients ((id, secret) ∷ m) =
    require (valid_client_id id) invalid_id
    >> require (not (ltb (length secret) min_secret_len)) short_secret
    >> check_clients m

-- The loop over the pinned names. `seen` is the map from a name to its client.
unfoldable pub check_interfaces : Map Bytes Bytes → Map Bytes Bytes → Result Error (Unit {0})
check_interfaces seen [] = ok tt
check_interfaces seen ((id, name) ∷ m) =
    require (valid_client_id id) invalid_id
    >> require (valid_name name) invalid_iface
    >> require (not (is_generated_name name)) generated_iface
    >> require (not (is_some (lookup name seen))) duplicate_iface
    >> check_interfaces (insert name id seen) m

-- The checks of one lease that parses.
unfoldable pub check_lease : Prefix → Addr → Map Addr Bytes → Addr → Result Error (Unit {0})
check_lease pool inner seen leased =
    require (if is4 leased then is4 pool.addr else not (is4 pool.addr)) wrong_family
    >> require (contains pool leased) lease_outside
    >> require (not (leased == inner)) server_lease
    >> require (not (is_some (lookup leased seen))) duplicate_lease

-- The loop over the static leases.
unfoldable pub check_leases :
    Prefix → Addr → Map Addr Bytes → Map Bytes (Option Addr) → Result Error (Unit {0})
unfolding check_lease
check_leases pool inner seen [] = ok tt
check_leases pool inner seen ((id, none) ∷ m) =
    require (valid_client_id id) invalid_id >> err invalid_lease
check_leases pool inner seen ((id, some leased) ∷ m) =
    require (valid_client_id id) invalid_id
    >> check_lease pool inner seen leased
    >> check_leases pool inner (insert leased id seen) m

-- The checks behind the parsed pool and server address.
unfoldable pub check_rest : ServerConfig → Prefix → Addr → Result Error (Unit {0})
unfolding check_clients check_interfaces check_leases
check_rest c pool inner =
    require (contains pool inner) inner_outside
    >> require (not (length c.psk == 0 && length c.clients == 0)) no_secret
    >> require (not (not (length c.psk == 0) && ltb (length c.psk) min_secret_len)) short_psk
    >> check_clients c.clients
    >> check_interfaces [] c.interfaces
    >> check_leases pool inner [] c.leases

-- `ValidateServer`
unfoldable pub validate_server : ServerConfig → Result Error (Unit {0})
unfolding check_rest
validate_server c = require c.gre_local_set missing >> (elim c.inner_pool [
  | empty ↦ err missing
  | ill_formed ↦ err invalid_pool
  | parsed pool ↦ elim c.server_inner [
    | empty ↦ err missing
    | ill_formed ↦ err invalid_inner
    | parsed inner ↦ check_rest c pool inner
  ]
])

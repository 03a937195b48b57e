-- ===== src/Tests/ServerTests.antt =====
-- The admission of internal/control/server.go and the names of internal/gre/name.go.
use gremlind.Prelude.{
  ℕ, ◌+◌, ◌≡◌, ◌≢◌, refl, ◌↔◌, ◌≤◌, true, some, List, ◌∷◌, [], length, list_eq, nat_eq, ok,
}
use gremlind.Prelude.Bytes.{Bytes}
use gremlind.Prelude.Maps.{lookup}
use gremlind.Net.{addr_eq, v4, contains}
use gremlind.Config.{ServerConfig, parsed, validate_server}
use gremlind.Config.Validated.{validate_server-names}
use gremlind.Config.Leases.{validate_server-leases}
use gremlind.Tests.PoolTests.{net, small, server_ip}
use gremlind.Control.Admission.{
  serve, or_default, default_max_pending_handshakes, default_max_pending_per_ip, reserve, Move,
  arrives, checks, gives_back, finishes, leaves, fly, take_off,
}
use gremlind.Control.Admission.Counting.{count}
use gremlind.Control.Admission.Invariant.{fly-limits}
use gremlind.Control.Identity.{valid_client_id}
use gremlind.Gre.Names.{is_alphanumeric, valid_name, is_generated_name, if_name}
use gremlind.Gre.Naming.{if_name-valid}

-- 32 bytes
abbrev secret : Bytes
secret =
    0 ∷ 0 ∷ 0 ∷ 0 ∷ 0 ∷ 0 ∷ 0 ∷ 0 ∷ 0 ∷ 0 ∷ 0 ∷ 0 ∷ 0 ∷ 0 ∷ 0 ∷ 0 ∷ 0 ∷ 0 ∷ 0 ∷ 0 ∷ 0 ∷ 0 ∷ 0 ∷ 0
    ∷ 0 ∷ 0 ∷ 0 ∷ 0 ∷ 0 ∷ 0 ∷ 0 ∷ 0 ∷ []

abbrev near : Bytes
near = 1 ∷ []

abbrev far : Bytes
far = 2 ∷ []

-- A second connection of one source is refused while the first one's release is under way.
abbrev moves : List Move
moves =
    arrives near
    ∷ checks
    ∷ arrives near
    ∷ checks
    ∷ finishes 0
    ∷ gives_back
    ∷ arrives far
    ∷ leaves
    ∷ checks
    ∷ []

fly-limits_example :
    (length (fly (take_off (serve 2 1)) moves).handshakes
      ≤ or_default 2 default_max_pending_handshakes)
    × ((ip : Bytes)
        → count ip (fly (take_off (serve 2 1)) moves).handshakes
          ≤ or_default 1 default_max_pending_per_ip)
fly-limits_example = fly-limits 2 1 moves

reserved : (reserve (serve 2 1) near).1 ≡ true
unfolding reserve serve lookup
reserved = refl

if_name-valid_example :
    (is_generated_name (if_name 48879) ≡ true) × (valid_name (if_name 48879) ≡ true)
if_name-valid_example = if_name-valid 48879

abbrev beef : ℕ
beef = 48879

abbrev alice : Bytes
alice = b'a' ∷ []

abbrev pub bob : Bytes
bob = b'b' ∷ []

abbrev pub tunnel : Bytes
tunnel = b't' ∷ b'1' ∷ []

-- A server that pins a name and an address for one client.
abbrev pub settings : ServerConfig
settings = record {
  gre_local_set = true;
  inner_pool = parsed small;
  server_inner = parsed server_ip;
  psk = [];
  clients = (bob, secret) ∷ [];
  interfaces = (bob, tunnel) ∷ [];
  leases = (bob, some (v4 (net + 4))) ∷ [];
}

pub settings_valid : validate_server settings ≡ ok tt
unfolding validate_server contains valid_client_id is_alphanumeric valid_name is_generated_name
    lookup
settings_valid = refl

pinned_name : lookup bob settings.interfaces ≡ some tunnel
unfolding lookup
pinned_name = refl

pinned_lease : lookup bob settings.leases ≡ some (some (v4 (net + 4)))
unfolding lookup
pinned_lease = refl

validate_server-names_example :
    (valid_name tunnel ≡ true)
    × (tunnel ≢ if_name 17)
    × ((lookup alice settings.interfaces ≡ some tunnel) ↔ (alice ≡ bob))
validate_server-names_example =
    validate_server-names settings small server_ip bob alice tunnel 17 refl refl settings_valid
      pinned_name

validate_server-leases_example :
    (contains small (v4 (net + 4)) ≡ true)
    × (v4 (net + 4) ≢ server_ip)
    × ((lookup alice settings.leases ≡ some (some (v4 (net + 4)))) ↔ (alice ≡ bob))
validate_server-leases_example =
    validate_server-leases settings small server_ip bob alice (v4 (net + 4)) refl refl
      settings_valid pinned_lease

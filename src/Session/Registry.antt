-- ===== src/Session/Registry.antt =====
-- The critical sections of internal/session/manager.go. Each runs under the mutex, so it is one step.
use gremlind.Prelude.{
  ℕ, suc, ◌+◌, ◌-◌, ◌%◌, ◌^◌, ◌&&◌, not, List, [], ◌∷◌, Option, none, some, Result, ok, err, ◌==◌,
  nat_eq, list_eq, if◌then◌else◌,
}
use gremlind.Prelude.Bytes.{Bytes}
use gremlind.Prelude.Int.{ℤ, pos, negsuc}
use gremlind.Prelude.Maps.{Map, lookup, insert, delete, is_some}
use gremlind.Net.{Addr, addr_eq}
use gremlind.Gre.Names.{if_name}
use gremlind.Pool.{Pool, release}
use gremlind.Control.Proto.{tunnel_flag_gre_key, tunnel_flag_gre_seq}
use gremlind.Session.Defs.{SessionGrant, SessionParams, Entry, Manager}
use gremlind.Session.Leases.{AllocError, alloc_inner, purge_expired_leases}

-- `evictLocked`
unfoldable pub evict : Manager → Bytes → Manager × Option Entry
evict m client = elim (lookup client m.active) [
  | none ↦ (m, none)
  | some old_key ↦
      let removed = record m {
        sessions = delete old_key m.sessions;
        active = delete client m.active;
      } in
      elim (lookup old_key m.sessions) [
        | none ↦ (removed, none)
        | some entry ↦ (record removed { pool = release m.pool entry.client_inner }, some entry)
      ]
]

-- `randomKeyLocked`. The list is what `rand.Read` yields, a uint32 a round, before it fails.
unfoldable pub random_key : Map ℕ Entry → List ℕ → Option ℕ
random_key sessions [] = none
random_key sessions (k ∷ ks) =
    let rest = random_key sessions ks in
    if not (k == 0) && not (is_some (lookup k sessions)) then some k else rest

-- `ifNameFor`
unfoldable pub if_name_for : Manager → Bytes → ℕ → Bytes
if_name_for m client key = elim (lookup client m.if_names) [ some name ↦ name | none ↦ if_name key ]

pub data Refusal : Type 0 where
  no_addresses : AllocError → Refusal
  key_generation : Refusal

-- What the first critical section of `Establish` hands on.
pub record Begun : Type 0 where
  pub key : ℕ
  pub entry : Entry
  pub evicted : Option Entry

abbrev pub new_entry : Manager → SessionParams → ℤ → ℕ → Addr → ℕ → Entry
new_entry m p mtu now inner key = record {
  ident = m.allocated;
  client_id = p.client_id;
  if_name = if_name_for m p.client_id key;
  client_inner = inner;
  client_outer = p.client_outer;
  gre_key = if m.use_gre_key then key else 0;
  mtu = mtu;
  since = now;
}

-- The four map writes at the end of the section.
unfoldable pub register : Manager → ℕ → Entry → Manager
register m key entry = record m {
  sessions = insert key entry m.sessions;
  active = insert entry.client_id key m.active;
  leases = insert entry.client_id entry.client_inner m.leases;
  lease_times = insert entry.client_id entry.since m.lease_times;
  allocated = suc m.allocated;
}

-- The section from the allocated address on.
unfoldable pub with_address :
    Manager → SessionParams → ℤ → ℕ → List ℕ → Option Entry → Addr → Manager × Result Refusal Begun
unfolding random_key register
with_address m p mtu now rands evicted inner = elim (random_key m.sessions rands) [
  | none ↦ (record m { pool = release m.pool inner }, err key_generation)
  | some key ↦
      let entry = new_entry m p mtu now inner key in
      (register m key entry, ok (record { key = key; entry = entry; evicted = evicted }))
]

abbrev pub after_alloc :
    Manager
    → SessionParams
    → ℤ
    → ℕ
    → List ℕ
    → Option Entry
    → Pool × Result AllocError Addr
    → Manager × Result Refusal Begun
after_alloc m p mtu now rands evicted (pool, err e) =
    (record m { pool = pool }, err (no_addresses e))
after_alloc m p mtu now rands evicted (pool, ok inner) =
    with_address (record m { pool = pool }) p mtu now rands evicted inner

-- The first critical section of `Establish`.
unfoldable pub establish_locked :
    Manager → SessionParams → ℤ → ℕ → List ℕ → Manager × Result Refusal Begun
unfolding evict with_address
establish_locked m p mtu now rands =
    let (m, evicted) = evict (purge_expired_leases m now) p.client_id in
    after_alloc m p mtu now rands evicted (alloc_inner m p.client_id p.requested_inner)

-- The critical section after a failed `Ensure` or `mssclamp.Apply`: the same entry, and only it.
unfoldable pub rollback : Manager → ℕ → ℕ → Manager
rollback m key ident = elim (lookup key m.sessions) [
  | none ↦ m
  | some entry ↦
      if entry.ident == ident
      then record m {
        sessions = delete key m.sessions;
        active = elim (lookup entry.client_id m.active) [
          | none ↦ m.active
          | some k ↦ if k == key then delete entry.client_id m.active else m.active
        ];
        pool = release m.pool entry.client_inner;
        leases = delete entry.client_id m.leases;
        lease_times = delete entry.client_id m.lease_times;
      }
      else m
]

-- The critical section of `Teardown`, and the entry whose data plane is then removed.
unfoldable pub teardown : Manager → ℕ → ℕ → Manager × Option Entry
teardown m key now = elim (lookup key m.sessions) [
  | none ↦ (m, none)
  | some entry ↦ (
    record m {
      sessions = delete key m.sessions;
      active = elim (lookup entry.client_id m.active) [
        | none ↦ m.active
        | some k ↦ if k == key then delete entry.client_id m.active else m.active
      ];
      pool = release m.pool entry.client_inner;
      lease_times = insert entry.client_id now m.lease_times;
    },
    some entry,
  )
]

-- `uint16(mtu)`
abbrev pub word_16 : ℤ → ℕ
word_16 (pos n) = n % 2 ^ 16
word_16 (negsuc n) = 2 ^ 16 - 1 - n % 2 ^ 16

-- The flags of a manager's tunnels.
unfoldable pub tunnel_flags_of : Manager → ℕ
tunnel_flags_of m =
    let keyed : ℕ = if m.use_gre_key then tunnel_flag_gre_key else 0 in
    if m.use_gre_seq then keyed + tunnel_flag_gre_seq else keyed

-- What `Establish` returns for the session that it has entered.
unfoldable pub grant_of : Manager → Begun → SessionGrant
unfolding tunnel_flags_of
grant_of m b = record {
  client_inner = b.entry.client_inner;
  server_inner = m.server_inner;
  server_outer = m.gre_local;
  gre_key = b.entry.gre_key;
  tunnel_flags = tunnel_flags_of m;
  mtu = word_16 b.entry.mtu;
  session_key = b.key;
}

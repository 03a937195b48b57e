-- ===== src/Session/Leases.antt =====
-- Sticky and static leases of internal/session/manager.go: who may have which inner address.
use gremlind.Prelude.{
  ℕ, zero, suc, Bool, false, ◌&&◌, ◌||◌, not, List, [], ◌∷◌, ◌++◌, Option, none, some, Result, ok,
  err, ◌==◌, nat_eq, list_eq, if◌then◌else◌,
}
use gremlind.Prelude.Bytes.{Bytes}
use gremlind.Prelude.Int.{pos, ◌-ℤ◌, leb_ℤ, ltb_ℤ}
use gremlind.Prelude.Maps.{Map, lookup, delete, is_some}
use gremlind.Net.{Addr, addr_eq, invalid, is_valid}
use gremlind.Net.Blocks.{size}
use gremlind.Pool.{Pool, allocate, allocate_specific, release}
use gremlind.Session.Defs.{Manager}

-- One loop of `leaseAvailableToLocked`: an entry of another owner holds the address.
unfoldable pub claimed_by_other : Bytes → Addr → Map Bytes Addr → Bool
claimed_by_other client addr [] = false
claimed_by_other client addr ((owner, leased) ∷ m) =
    not (owner == client) && leased == addr || claimed_by_other client addr m

-- `leaseAvailableToLocked`
unfoldable pub lease_available_to : Manager → Bytes → Addr → Bool
unfolding claimed_by_other
lease_available_to m client addr =
    not (claimed_by_other client addr m.static_lease) && not (claimed_by_other client addr m.leases)

pub data AllocError : Type 0 where
  static_claimed : AllocError
  static_unavailable : AllocError
  exhausted : AllocError
  out_of_fuel : AllocError

unfoldable pub release_all : List Addr → Pool → Pool
release_all [] p = p
release_all (a ∷ skipped) p = release_all skipped (release p a)

-- The `for` loop of `allocInnerLocked`, on fuel: what the pool offers is skipped while it belongs to
-- another client.
unfoldable pub alloc_loop : ℕ → (Addr → Bool) → Pool → List Addr → Pool × Result AllocError Addr
unfolding release_all
alloc_loop zero available p skipped = (p, err out_of_fuel)
alloc_loop (suc fuel) available p skipped = elim (allocate p) [
  | err e ↦ (release_all skipped p, err exhausted)
  | ok (q, addr) ↦
      let rest = alloc_loop fuel available q (skipped ++ addr ∷ []) in
      if available addr then (release_all skipped q, ok addr) else rest
]

-- One round of the loop over the preferred addresses.
unfoldable pub try_candidate : (Addr → Bool) → Pool → Addr → Option (Pool × Addr)
try_candidate available p cand =
    if is_valid cand && available cand
    then elim (allocate_specific p cand) [ ok q ↦ some (q, cand) | err e ↦ none ]
    else none

-- A missing map entry reads as the zero address.
abbrev pub addr_or_zero : Option Addr → Addr
addr_or_zero none = invalid
addr_or_zero (some a) = a

abbrev pub or_else :
    Option (Pool × Addr) → Pool × Result AllocError Addr → Pool × Result AllocError Addr
or_else none other = other
or_else (some (q, a)) other = (q, ok a)

-- The branch for a client without a static lease. Each address of the prefix is offered at most once,
-- so its size bounds the rounds.
unfoldable pub alloc_dynamic : Manager → Bytes → Addr → Pool × Result AllocError Addr
unfolding alloc_loop try_candidate
alloc_dynamic m client requested =
    let available = lease_available_to m client in
    let fresh = alloc_loop (size m.pool.prefix) available m.pool [] in
    let sticky = addr_or_zero (lookup client m.leases) in
    or_else (try_candidate available m.pool requested)
      (or_else (try_candidate available m.pool sticky) fresh)

unfoldable pub alloc_static : Manager → Bytes → Addr → Pool × Result AllocError Addr
alloc_static m client static =
    if not (lease_available_to m client static)
    then (m.pool, err static_claimed)
    else elim (allocate_specific m.pool static) [
      | ok q ↦ (q, ok static)
      | err e ↦ (m.pool, err static_unavailable)
    ]

-- `allocInnerLocked`: the pool that it leaves, and the address.
unfoldable pub alloc_inner : Manager → Bytes → Addr → Pool × Result AllocError Addr
unfolding alloc_static alloc_dynamic
alloc_inner m client requested = elim (lookup client m.static_lease) [
  | some static ↦ alloc_static m client static
  | none ↦ alloc_dynamic m client requested
]

-- The body of the loop of `purgeExpiredLeasesLocked`.
unfoldable pub purge_one : ℕ → Manager → Bytes → ℕ → Manager
purge_one now m client t =
    if is_some (lookup client m.active)
    then m
    else if ltb_ℤ m.lease_ttl (pos now -ℤ pos t)
    then record m { leases = delete client m.leases; lease_times = delete client m.lease_times }
    else m

unfoldable pub purge_all : ℕ → Map Bytes ℕ → Manager → Manager
unfolding purge_one
purge_all now [] m = m
purge_all now ((client, t) ∷ times) m = purge_all now times (purge_one now m client t)

-- `purgeExpiredLeasesLocked`
unfoldable pub purge_expired_leases : Manager → ℕ → Manager
unfolding purge_all
purge_expired_leases m now = if leb_ℤ m.lease_ttl (pos 0) then m else purge_all now m.lease_times m

-- ===== src/Session/Sticky.antt =====
-- A client that comes back within its lease gets its inner address again.
use gremlind.Prelude.{
  ℕ, ◌≡◌, refl, sym, ap, subst, ◌∙◌, ◌⊎◌, inl, inr, true, false, Option, none, some, List, Result,
  ok, err, arith, nat_eq, list_eq, Bool-cases, Option-cases,
}
use gremlind.Prelude.Bytes.{Bytes}
use gremlind.Prelude.Int.{ℤ}
use gremlind.Prelude.Maps.{lookup, has, is_some}
use gremlind.Net.{Addr, addr_eq, is_valid, contains}
use gremlind.Pool.{Pool, allocate_specific}
use gremlind.Pool.Allocation.{allocate_specific_iff}
use gremlind.Session.Defs.{SessionParams, Entry, Manager}
use gremlind.Session.Leases.{
  AllocError, lease_available_to, try_candidate, addr_or_zero, or_else, alloc_dynamic, alloc_static,
  alloc_inner, purge_expired_leases,
}
use gremlind.Session.Registry.{
  evict, random_key, Refusal, key_generation, Begun, with_address, establish_locked,
}
use gremlind.Session.Consistency.{Inv}
use gremlind.Session.Claiming.{own-available, purge_expired_leases-Purges}
use gremlind.Session.Sections.{evict-Vacant, evict-leases}

contains-is_valid : (p : Pool) (a : Addr) → contains p.prefix a ≡ true → is_valid a ≡ true
unfolding contains
contains-is_valid p a h = ground arith

first-chosen :
    (t : Option (Pool × Addr)) (other : Pool × Result AllocError Addr) (q : Pool) (a : Addr)
    → t ≡ some (q, a)
    → or_else t other ≡ (q, ok a)
first-chosen t other q a h = rw h refl

second-chosen :
    (t u : Option (Pool × Addr)) (other : Pool × Result AllocError Addr) (q : Pool) (a : Addr)
    → t ≡ none
    → u ≡ some (q, a)
    → or_else t (or_else u other) ≡ (q, ok a)
second-chosen t u other q a h k = rw (h, k) refl

module _ (m : Manager) (c : Bytes) (a : Addr) (i : Inv m) (lease : lookup c m.leases ≡ some a)
    (idle : lookup c m.active ≡ none) where
  -- The leased address of a client without a session is free.
  lease-free : has a m.pool.used ≡ false
  lease-free = elim (Bool-cases (has a m.pool.used)) [
    | inr free ↦ free
    | inl used ↦
        let (k, e, at, own) = i.used_session a used in
        let mine : e.client_id ≡ c =
          i.lease_owner e.client_id c a (i.session_lease k e at ∙ ap some own) lease in
        let both : none ≡ some k =
          sym idle ∙ ap (λ x. lookup x m.active) (sym mine) ∙ i.session_active k e at in
        cc
  ]

  lease-claims : (q : Pool) × (allocate_specific m.pool a ≡ ok q)
  lease-claims =
      let (inside, unreserved) = i.leased c a lease in
      (allocate_specific_iff m.pool a).1 (inside, unreserved, lease-free)

  available : lease_available_to m c a ≡ true
  available = own-available m c a i lease

  lease-candidate :
      (q : Pool)
      → allocate_specific m.pool a ≡ ok q
      → try_candidate (lease_available_to m c) m.pool a ≡ some (q, a)
  unfolding try_candidate
  lease-candidate q e = rw (contains-is_valid m.pool a (i.leased c a lease).0, available, e) refl

  no_candidate :
      (requested : Addr)
      → is_valid requested ≡ false
      → try_candidate (lease_available_to m c) m.pool requested ≡ none
  unfolding try_candidate
  no_candidate requested nothing = rw nothing refl

  pinned :
      (s : Addr) (q : Pool)
      → lookup c m.static_lease ≡ some s
      → allocate_specific m.pool a ≡ ok q
      → alloc_static m c s ≡ (q, ok a)
  unfolding alloc_static
  pinned s q own e =
      subst (λ x. alloc_static m c x ≡ (q, ok a)) (i.static_lease c a s lease own)
        (rw (available, e) refl)

  dynamic :
      (requested : Addr)
      → (is_valid requested ≡ false) ⊎ (requested ≡ a)
      → (q : Pool) → allocate_specific m.pool a ≡ ok q
      → alloc_dynamic m c requested ≡ (q, ok a)
  unfolding alloc_dynamic
  dynamic requested (inl nothing) q e = second-chosen _ _ _ q a (no_candidate requested nothing) (
      ap (λ x. try_candidate (lease_available_to m c) m.pool (addr_or_zero x)) lease
      ∙ lease-candidate q e)
  dynamic requested (inr same) q e =
      first-chosen _ _ q a
        (ap (try_candidate (lease_available_to m c) m.pool) same ∙ lease-candidate q e)

  -- An idle client with a lease is given the leased address, whether its configuration pins the
  -- address or not.
  lease-alloc :
      (requested : Addr)
      → (is_valid requested ≡ false) ⊎ (requested ≡ a)
      → (q : Pool) × (alloc_inner m c requested ≡ (q, ok a))
  unfolding alloc_inner
  lease-alloc requested asks =
      let (q, e) = lease-claims in
      (
        q,
        elim (Option-cases (lookup c m.static_lease)) [
          | inl none_static ↦ rw (none_static, alloc_inner) (dynamic requested asks q e)
          | inr (s, own) ↦ rw (own, alloc_inner) (pinned s q own e)
        ],
      )

-- Behind the purge and the eviction, the lease that the purge has left is there, and it serves.
lease-after_evict :
    (m : Manager) (c : Bytes) (a requested : Addr)
    → Inv m
    → lookup c m.leases ≡ some a
    → (is_valid requested ≡ false) ⊎ (requested ≡ a)
    → (q : Pool) × (alloc_inner (evict m c).0 c requested ≡ (q, ok a))
lease-after_evict m c a requested i lease asks =
    let v = evict-Vacant m c i in
    lease-alloc (evict m c).0 c a v.consistent (ap (lookup c) (evict-leases m c i) ∙ lease)
      v.no_session requested asks

-- What `Establish` returns with the address `a`: a session on `a`, unless there is no key.
pub data Returns (a : Addr) (r : Result Refusal Begun) : Type 0 where
  same_address : (b : Begun) → r ≡ ok b → b.entry.client_inner ≡ a → Returns a r
  no_key : r ≡ err key_generation → Returns a r

with_address-Returns :
    (m : Manager) (p : SessionParams) (mtu : ℤ) (now : ℕ) (rands : List ℕ) (ev : Option Entry)
    (a : Addr)
    → Returns a (with_address m p mtu now rands ev a).1
unfolding with_address
with_address-Returns m p mtu now rands ev a = elim (Option-cases (random_key m.sessions rands)) [
  | inl e ↦ rw (e, with_address) (no_key refl)
  | inr (k, e) ↦ rw (e, with_address) (same_address _ refl refl)
]

-- From a consistent registry, a client that connects while it has a lease that the purge leaves,
-- and that asks for no address or for the leased one, is given the leased address; the only
-- failure left is that of the key generator. This covers a client that roams, whose old session is
-- evicted first, and a client with a static lease.
pub establish_locked-sticky :
    (m : Manager) (p : SessionParams) (mtu : ℤ) (now : ℕ) (rands : List ℕ) (a : Addr)
    → Inv m
    → lookup p.client_id (purge_expired_leases m now).leases ≡ some a
    → (is_valid p.requested_inner ≡ false) ⊎ (p.requested_inner ≡ a)
    → Returns a (establish_locked m p mtu now rands).1
unfolding establish_locked
establish_locked-sticky m p mtu now rands a i lease asks =
    let purged = purge_expired_leases m now in
    let q = purge_expired_leases-Purges m now i in
    let (pool, e) =
      lease-after_evict purged p.client_id a p.requested_inner q.consistent lease asks in
    rw e (
      with_address-Returns (record ((evict purged p.client_id).0) { pool = pool }) p mtu now rands
        (evict purged p.client_id).1 a)

-- A session's client has a lease on the session's address that no purge takes.
pub session-lease :
    (m : Manager) (now k : ℕ) (e : Entry)
    → Inv m
    → lookup k m.sessions ≡ some e
    → lookup e.client_id (purge_expired_leases m now).leases ≡ some e.client_inner
session-lease m now k e i at =
    let q = purge_expired_leases-Purges m now i in
    q.kept e.client_id (ap is_some (i.session_active k e at)) ∙ i.session_lease k e at

-- ===== src/Pool/Allocation.antt =====
-- What `Allocate`, `AllocateSpecific`, `Pin` and `Release` promise.
use gremlind.Prelude.{
  ℕ, ◌≤◌, ◌<◌, ◌≡◌, refl, ◌↔◌, Bool, true, false, ◌||◌, Option, Result, ok, err, arith, ◌==◌,
  if◌then◌else◌,
}
use gremlind.Prelude.Maps.{insert, has, has-insert, has-delete}
use gremlind.Net.{Addr, addr_eq, addr_eqb_iff, contains}
use gremlind.Net.Blocks.{size, host, IsBlock, contains-host}
use gremlind.Pool.Defs.{Pool, Error, exhausted, taken, claim, allocate, allocate_specific, release}
use gremlind.Pool.Scan.{Finds, found, full, AllTaken, scan-Finds}

-- What a pool shows to its users: the addresses that no `Allocate` returns, and those in use.
abbrev pub blocked : Pool → Addr → Bool
blocked p a = has a p.reserved || has a p.pinned

abbrev pub in_pool_use : Pool → Addr → Bool
in_pool_use p a = has a p.used

-- `q` is `p` with one more address in use.
pub record Claims (p q : Pool) (a : Addr) : Type 0 where
  pub prefix : q.prefix ≡ p.prefix
  pub reserved : q.reserved ≡ p.reserved
  pub pinned : q.pinned ≡ p.pinned
  pub inside : contains p.prefix a ≡ true
  pub unreserved : has a p.reserved ≡ false
  pub fresh : has a p.used ≡ false
  pub writes : q.used ≡ insert a true p.used
  pub now_used : (b : Addr) → has b q.used ≡ (if a == b then true else has b p.used)

-- What `Allocate` returns: the first free address, or the news that there is none.
pub data Allocates (p : Pool) (r : Result Error (Pool × Addr)) : Type 0 where
  granted :
      (j : ℕ) (q : Pool)
      → 1 ≤ j
      → j < size p.prefix
      → r ≡ ok (q, host p.prefix j)
      → Claims p q (host p.prefix j)
      → has (host p.prefix j) p.pinned ≡ false
      → AllTaken p 1 j
      → Allocates p r
  refused : r ≡ err exhausted → AllTaken p 1 (size p.prefix) → Allocates p r

claim-Allocates :
    (p : Pool) (r : Option Addr) → IsBlock p.prefix → Finds p 1 r → Allocates p (claim p r)
unfolding claim taken
claim-Allocates p r b (found j lo hi e free all) = rw e (
    granted j (record p { used = insert (host p.prefix j) true p.used }) lo hi refl
      (record {
        prefix = refl;
        reserved = refl;
        pinned = refl;
        inside = contains-host p.prefix j b hi;
        unreserved = ground arith;
        fresh = ground arith;
        writes = refl;
        now_used = λ c. has-insert (host p.prefix j) c true p.used;
      })
      (ground arith) all)
claim-Allocates p r b (full e all) = rw e (refused refl all)

-- From a masked prefix, `Allocate` always ends: it hands out the first address behind the network
-- address that is neither reserved, pinned nor in use, and marks just that one; or it answers that
-- the pool is exhausted, and then every address behind the network address is taken.
pub allocate-Allocates : (p : Pool) → IsBlock p.prefix → Allocates p (allocate p)
unfolding allocate
allocate-Allocates p b = claim-Allocates p _ b (scan-Finds p b)

-- `AllocateSpecific` succeeds exactly on an address of the prefix that is neither reserved nor in
-- use, pinned or not.
pub allocate_specific_iff :
    (p : Pool) (a : Addr)
    → ((q : Pool) × (allocate_specific p a ≡ ok q))
      ↔ ((contains p.prefix a ≡ true) × (has a p.reserved ≡ false) × (has a p.used ≡ false))
unfolding allocate_specific
allocate_specific_iff p a =
    (λ r. ground (arith, r.1), λ h. (record p { used = insert a true p.used }, ground arith))

-- A successful `AllocateSpecific` marks the address that was asked for, and nothing else.
pub allocate_specific-Claims : (p q : Pool) (a : Addr) → allocate_specific p a ≡ ok q → Claims p q a
unfolding allocate_specific
allocate_specific-Claims p q a e = record {
  prefix = ground arith;
  reserved = ground arith;
  pinned = ground arith;
  inside = ground arith;
  unreserved = ground arith;
  fresh = ground arith;
  writes = ground arith;
  now_used = λ b. ground (arith, has-insert a b true p.used);
}

release-Claims :
    (p q : Pool) (a b : Addr)
    → Claims p q a
    → ((release q a).prefix ≡ p.prefix)
      × (blocked (release q a) b ≡ blocked p b)
      × (in_pool_use (release q a) b ≡ in_pool_use p b)
unfolding release
release-Claims p q a b c = (
  c.prefix,
  rw (c.reserved, c.pinned),
  ground (arith, has-delete a b q.used, c.now_used b, c.fresh, addr_eqb_iff a b),
)

-- `Release` after `AllocateSpecific` gives back the pool that was there before: the same prefix,
-- reservations and pins, and every address in use exactly if it was.
pub release-allocate_specific :
    (p q : Pool) (a b : Addr)
    → allocate_specific p a ≡ ok q
    → ((release q a).prefix ≡ p.prefix)
      × (blocked (release q a) b ≡ blocked p b)
      × (in_pool_use (release q a) b ≡ in_pool_use p b)
release-allocate_specific p q a b e = release-Claims p q a b (allocate_specific-Claims p q a e)

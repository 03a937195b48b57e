-- ===== src/Session/Assignment.antt =====
-- What `allocInnerLocked` hands out, on each of its branches.
use gremlind.Prelude.{
  ◌≡◌, ◌≢◌, refl, ◌⊎◌, inl, inr, Bool, true, ◌&&◌, none, some, Result, ok, err, arith, nat_eq,
  list_eq, Result-cases, Bool-cases, Option-cases,
}
use gremlind.Prelude.Bytes.{Bytes}
use gremlind.Prelude.Maps.{lookup}
use gremlind.Net.{Addr, addr_eq, is_valid}
use gremlind.Pool.{Pool, allocate_specific}
use gremlind.Pool.Allocation.{Claims, allocate_specific-Claims}
use gremlind.Pool.History.{IsSound, Claims-IsSound}
use gremlind.Session.Defs.{Manager}
use gremlind.Session.Leases.{
  AllocError, exhausted, static_claimed, static_unavailable, out_of_fuel, lease_available_to,
  try_candidate, or_else, alloc_dynamic, alloc_static, alloc_inner,
}
use gremlind.Session.Holding.{SamePool, Adds}
use gremlind.Session.Looping.{Loops, got, nothing, alloc_loop-Loops}

-- An assignment gives `client` an address that was free and that no other client has a claim on; a
-- failure leaves the pool as it was. A client with a static lease gets that address or none.
pub data Assigns (m : Manager) (client : Bytes) (r : Pool × Result AllocError Addr) : Type 0 where
  assigned :
      (a : Addr)
      → r.1 ≡ ok a
      → lease_available_to m client a ≡ true
      → Adds m.pool r.0 a
      → ((s : Addr) → lookup client m.static_lease ≡ some s → a ≡ s)
      → Assigns m client r
  failed :
      (e : AllocError) → r.1 ≡ err e → e ≢ out_of_fuel → SamePool m.pool r.0 → Assigns m client r

Claims-Adds : (p q : Pool) (a : Addr) → IsSound p → Claims p q a → Adds p q a
Claims-Adds p q a s c = record {
  sound = Claims-IsSound p q a s c;
  prefix = c.prefix;
  reserved = c.reserved;
  pinned = c.pinned;
  fresh = c.fresh;
  used = c.now_used;
}

SamePool-refl : (p : Pool) → IsSound p → SamePool p p
SamePool-refl p s = record {
  sound = s;
  prefix = refl;
  reserved = refl;
  pinned = refl;
  used = λ b. refl;
}

-- A preferred address is refused, or it was available and is claimed.
try_candidate_cases :
    (available : Addr → Bool) (p : Pool) (cand : Addr)
    → (try_candidate available p cand ≡ none)
      ⊎ ((q : Pool) × (try_candidate available p cand ≡ some (q, cand))
          × (available cand ≡ true)
          × (allocate_specific p cand ≡ ok q))
unfolding try_candidate
try_candidate_cases available p cand = elim (Bool-cases (is_valid cand && available cand)) [
  | inr bad ↦ inl (rw bad)
  | inl good ↦ elim (Result-cases (allocate_specific p cand)) [
    | inl (q, e) ↦ inr (q, rw (good, e), ground (arith, good), e)
    | inr (x, e) ↦ inl (rw (good, e))
  ]
]

module _ (m : Manager) (client : Bytes) (sound : IsSound m.pool) where
  specific-Assigns :
      (q : Pool) (a : Addr)
      → lease_available_to m client a ≡ true
      → allocate_specific m.pool a ≡ ok q
      → ((s : Addr) → lookup client m.static_lease ≡ some s → a ≡ s)
      → Assigns m client (q, ok a)
  specific-Assigns q a good e own =
      assigned a refl good (Claims-Adds m.pool q a sound (allocate_specific-Claims m.pool q a e))
        own

  alloc_static-Assigns :
      (static : Addr)
      → lookup client m.static_lease ≡ some static
      → Assigns m client (alloc_static m client static)
  unfolding alloc_static
  alloc_static-Assigns static own = elim (Bool-cases (lease_available_to m client static)) [
    | inr bad ↦ rw bad (failed static_claimed refl (λ e. cc) (SamePool-refl m.pool sound))
    | inl good ↦ elim (Result-cases (allocate_specific m.pool static)) [
      | inl (q, e) ↦ rw (good, e) (specific-Assigns q static good e (λ s h. cc))
      | inr (x, e) ↦
          rw (good, e) (failed static_unavailable refl (λ e. cc) (SamePool-refl m.pool sound))
    ]
  ]

  module _ (dynamic : lookup client m.static_lease ≡ none) where
    candidate-Assigns :
        (cand : Addr) (other : Pool × Result AllocError Addr)
        → Assigns m client other
        → Assigns m client (or_else (try_candidate (lease_available_to m client) m.pool cand) other)
    candidate-Assigns cand other h =
        elim (try_candidate_cases (lease_available_to m client) m.pool cand) [
          | inl e ↦ rw e h
          | inr (q, e, good, claimed) ↦ rw e (specific-Assigns q cand good claimed (λ s h. cc))
        ]

    Loops-Assigns :
        (r : Pool × Result AllocError Addr)
        → Loops (lease_available_to m client) m.pool r
        → Assigns m client r
    Loops-Assigns r (got a e good unpinned adds) = assigned a e good adds (λ s h. cc)
    Loops-Assigns r (nothing e every same) = failed exhausted e (λ x. cc) same

    alloc_dynamic-Assigns : (requested : Addr) → Assigns m client (alloc_dynamic m client requested)
    alloc_dynamic-Assigns requested =
        unfold alloc_dynamic in
        candidate-Assigns requested _ (
          candidate-Assigns _ _
            (Loops-Assigns _ (alloc_loop-Loops (lease_available_to m client) m.pool sound)))

  -- From a sound pool `allocInnerLocked` always ends, with an address that was free and that no
  -- other client has a claim on, which is the client's static lease if it has one, and which alone
  -- is then in use besides; or with an error and the pool as it was.
  pub alloc_inner-Assigns : (requested : Addr) → Assigns m client (alloc_inner m client requested)
  unfolding alloc_inner
  alloc_inner-Assigns requested = elim (Option-cases (lookup client m.static_lease)) [
    | inl e ↦ rw (e, alloc_inner) (alloc_dynamic-Assigns e requested)
    | inr (s, e) ↦ rw (e, alloc_inner) (alloc_static-Assigns s e)
  ]

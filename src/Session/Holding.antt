-- ===== src/Session/Holding.antt =====
-- The addresses that the loop of `allocInnerLocked` skips, and their release.
use gremlind.Prelude.{
  ◌≡◌, refl, Bool, true, false, ◌||◌, List, [], ◌∷◌, ◌++◌, arith, ◌==◌, if◌then◌else◌,
}
use gremlind.Prelude.Maps.{has, has-delete}
use gremlind.Net.{Addr, addr_eq}
use gremlind.Pool.{Pool, release}
use gremlind.Pool.History.{IsSound, release-IsSound}
use gremlind.Session.Leases.{release_all}

-- Pools that differ in nothing that a user can see.
pub record SamePool (p q : Pool) : Type 0 where
  pub sound : IsSound q
  pub prefix : q.prefix ≡ p.prefix
  pub reserved : q.reserved ≡ p.reserved
  pub pinned : q.pinned ≡ p.pinned
  pub used : (b : Addr) → has b q.used ≡ has b p.used

-- `q` is `p` with the address `a` in use too.
pub record Adds (p q : Pool) (a : Addr) : Type 0 where
  pub sound : IsSound q
  pub prefix : q.prefix ≡ p.prefix
  pub reserved : q.reserved ≡ p.reserved
  pub pinned : q.pinned ≡ p.pinned
  pub fresh : has a p.used ≡ false
  pub used : (b : Addr) → has b q.used ≡ (if a == b then true else has b p.used)

abbrev pub member : Addr → List Addr → Bool
member b [] = false
member b (a ∷ s) = a == b || member b s

pub release_all_used :
    (s : List Addr) (p : Pool) (b : Addr)
    → has b (release_all s p).used ≡ (if member b s then false else has b p.used)
unfolding release_all release
release_all_used [] p b = refl
release_all_used (a ∷ s) p b =
    ground (arith, release_all_used s (release p a) b, has-delete a b p.used)

pub release_all-IsSound : (s : List Addr) (p : Pool) → IsSound p → IsSound (release_all s p)
unfolding release_all
release_all-IsSound [] p h = h
release_all-IsSound (a ∷ s) p h = release_all-IsSound s (release p a) (release-IsSound p a h)

pub release_all_frame :
    (s : List Addr) (p : Pool)
    → ((release_all s p).prefix ≡ p.prefix)
      × ((release_all s p).reserved ≡ p.reserved)
      × ((release_all s p).pinned ≡ p.pinned)
unfolding release_all release
release_all_frame [] p = (refl, refl, refl)
release_all_frame (a ∷ s) p = release_all_frame s (release p a)

pub member-append : (b a : Addr) (s : List Addr) → member b (s ++ a ∷ []) ≡ (member b s || a == b)
member-append b a [] = ground arith
member-append b a (c ∷ s) = ground (arith, member-append b a s)

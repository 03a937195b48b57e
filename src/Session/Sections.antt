-- ===== src/Session/Sections.antt =====
-- The critical sections of `Establish` and `Teardown` keep the registry consistent.
use gremlind.Prelude.{
  ℕ, ◌≡◌, ◌≢◌, refl, sym, ap, subst, ◌∙◌, inl, inr, List, [], ◌∷◌, Option, none, some, arith,
  nat_eq, list_eq, Option-cases,
}
use gremlind.Prelude.Bytes.{Bytes}
use gremlind.Prelude.Maps.{Map, lookup, delete, delete-here, delete-kept, delete-survives}
use gremlind.Net.{addr_eq}
use gremlind.Pool.{release}
use gremlind.Session.Defs.{Entry, Manager}
use gremlind.Session.Registry.{evict, random_key}
use gremlind.Session.Consistency.{Inv, remove-Consistent}

-- The manager without the session `k` of the entry `e`.
abbrev pub without : Manager → ℕ → Entry → Manager
without m k e = record m {
  sessions = delete k m.sessions;
  active = delete e.client_id m.active;
  pool = release m.pool e.client_inner;
}

pub without-Inv :
    (m : Manager) (k : ℕ) (e : Entry) → Inv m → lookup k m.sessions ≡ some e → Inv (without m k e)
without-Inv m k e i at =
    remove-Consistent m.pool m.sessions m.active m.leases m.static_lease i k e at

-- What `evictLocked` does.
pub data Evicts (m : Manager) (c : Bytes) (r : Manager × Option Entry) : Type 0 where
  idle : lookup c m.active ≡ none → r ≡ (m, none) → Evicts m c r
  evicted :
      (k : ℕ) (e : Entry)
      → lookup k m.sessions ≡ some e
      → e.client_id ≡ c
      → r ≡ (without m k e, some e)
      → Evicts m c r

pub evict-Evicts : (m : Manager) (c : Bytes) → Inv m → Evicts m c (evict m c)
unfolding evict
evict-Evicts m c i = elim (Option-cases (lookup c m.active)) [
  | inl e ↦ rw (e, evict) (idle e refl)
  | inr (k, e) ↦
      let (f, at, own) = i.active_session c k e in
      rw (e, at, evict) (evicted k f at own (rw own refl))
]

-- What holds behind the eviction.
pub record Vacant (m n : Manager) (c : Bytes) : Type 0 where
  pub config : n.config ≡ m.config
  pub no_session : lookup c n.active ≡ none
  pub consistent : Inv n
  pub others :
      (k : ℕ) (e : Entry)
      → lookup k m.sessions ≡ some e
      → e.client_id ≢ c
      → lookup k n.sessions ≡ some e
  pub only : (k : ℕ) (e : Entry) → lookup k n.sessions ≡ some e → lookup k m.sessions ≡ some e

Evicts-Vacant :
    (m : Manager) (c : Bytes) (r : Manager × Option Entry) → Inv m → Evicts m c r → Vacant m r.0 c
Evicts-Vacant m c r i (idle nobody e) = rw e (record {
  config = refl;
  no_session = nobody;
  consistent = i;
  others = λ k e at other. at;
  only = λ k e at. at;
})
Evicts-Vacant m c r i (evicted k e at own same) = rw same (record {
  config = refl;
  no_session =
      subst (λ x. lookup x (delete e.client_id m.active) ≡ none) own
        (delete-here e.client_id m.active);
  consistent = without-Inv m k e i at;
  others = λ j f here other.
      delete-kept k j m.sessions (λ both.
        let one : some e ≡ some f = sym at ∙ ap (λ x. lookup x m.sessions) both ∙ here in
        let ef : e ≡ f = cc in other (ap (λ x. x.client_id) (sym ef) ∙ own))
      ∙ here;
  only = λ j f here. (delete-survives k j f m.sessions here).1;
})

pub evict-Vacant : (m : Manager) (c : Bytes) → Inv m → Vacant m (evict m c).0 c
evict-Vacant m c i = Evicts-Vacant m c (evict m c) i (evict-Evicts m c i)

-- The eviction keeps every lease.
pub evict-leases : (m : Manager) (c : Bytes) → Inv m → (evict m c).0.leases ≡ m.leases
evict-leases m c i = by_cases (evict-Evicts m c i)
  where
    by_cases : Evicts m c (evict m c) → (evict m c).0.leases ≡ m.leases
    by_cases (idle nobody e) = ap (λ r. r.0.leases) e
    by_cases (evicted k e at own same) = ap (λ r. r.0.leases) same

-- A key that `randomKeyLocked` returns is not zero and not taken.
pub random_key-fresh :
    (sessions : Map ℕ Entry) (rands : List ℕ) (k : ℕ)
    → random_key sessions rands ≡ some k
    → (k ≢ 0) × (lookup k sessions ≡ none)
unfolding random_key
random_key-fresh sessions [] k h = cc
random_key-fresh sessions (r ∷ rands) k h =
    ground (
      arith,
      random_key-fresh sessions rands k,
      nat_eq.decides r 0,
      Option-cases (lookup r sessions),
    )

-- ===== src/Session/Establishing.antt =====
-- What the first critical section of `Establish` does, on each of its branches.
use gremlind.Prelude.{
  if◌then◌else◌, ℕ, ◌≡◌, ◌≢◌, refl, sym, ap, subst, ◌∙◌, ◌⊎◌, inl, inr, true, List, Option, none,
  some, Result, ok, err, nat_eq, list_eq, Option-cases,
}
use gremlind.Prelude.Bytes.{Bytes}
use gremlind.Prelude.Int.{ℤ}
use gremlind.Prelude.Maps.{lookup, insert-here, insert-kept, insert-cases}
use gremlind.Net.{Addr, addr_eq}
use gremlind.Pool.{Pool, release}
use gremlind.Session.Defs.{SessionParams, Entry, Manager}
use gremlind.Session.Leases.{AllocError, alloc_inner, purge_expired_leases, lease_available_to}
use gremlind.Session.Registry.{
  evict, random_key, Refusal, no_addresses, key_generation, Begun, new_entry, register,
  with_address, after_alloc, establish_locked,
}
use gremlind.Session.Holding.{SamePool, Adds}
use gremlind.Session.Assignment.{Assigns, assigned, failed, alloc_inner-Assigns}
use gremlind.Session.Consistency.{Inv, SamePool-Consistent, undo-SamePool}
use gremlind.Session.Registering.{add-Consistent}
use gremlind.Session.Claiming.{available-owners, Purges, purge_expired_leases-Purges}
use gremlind.Session.Sections.{Vacant, evict-Vacant, random_key-fresh}

-- `n` is `m` with the session `b` of the client that asked, and every other client's session.
pub record Serves (m n : Manager) (client : Bytes) (b : Begun) : Type 0 where
  pub consistent : Inv n
  pub config : n.config ≡ m.config
  pub registered : lookup b.key n.sessions ≡ some b.entry
  pub current : lookup client n.active ≡ some b.key
  pub nonzero : b.key ≢ 0
  pub own : b.entry.client_id ≡ client
  pub keyed : b.entry.gre_key ≡ (if m.use_gre_key then b.key else 0)
  pub others :
      (k : ℕ) (e : Entry)
      → lookup k m.sessions ≡ some e
      → e.client_id ≢ client
      → lookup k n.sessions ≡ some e
  pub only :
      (k : ℕ) (e : Entry)
      → lookup k n.sessions ≡ some e
      → (b.key ≡ k) ⊎ (lookup k m.sessions ≡ some e)

-- `n` is `m` without a session of the client that asked.
pub record Refuses (m n : Manager) (client : Bytes) : Type 0 where
  pub consistent : Inv n
  pub config : n.config ≡ m.config
  pub no_session : lookup client n.active ≡ none
  pub others :
      (k : ℕ) (e : Entry)
      → lookup k m.sessions ≡ some e
      → e.client_id ≢ client
      → lookup k n.sessions ≡ some e

pub data Establishes (m : Manager) (client : Bytes) (r : Manager × Result Refusal Begun)
    : Type 0 where
  established : (b : Begun) → r.1 ≡ ok b → Serves m r.0 client b → Establishes m client r
  refused : (e : Refusal) → r.1 ≡ err e → Refuses m r.0 client → Establishes m client r

module _ (m n : Manager) (p : SessionParams) (v : Vacant m n p.client_id) where
  register-Serves :
      (pool : Pool) (inner : Addr) (mtu : ℤ) (now key : ℕ) (ev : Option Entry)
      → Adds n.pool pool inner
      → lease_available_to n p.client_id inner ≡ true
      → ((s : Addr) → lookup p.client_id n.static_lease ≡ some s → inner ≡ s)
      → key ≢ 0
      → lookup key n.sessions ≡ none
      → let at = record n { pool = pool } in
        let entry = new_entry at p mtu now inner key in
        Serves m
          (register at key entry)
          p.client_id
          (record { key = key; entry = entry; evicted = ev })
  unfolding register
  register-Serves pool inner mtu now key ev adds good own nonzero fresh =
      let i = v.consistent in
      let (no_lease, no_static) = available-owners n p.client_id inner good in
      let entry = new_entry (record n { pool = pool }) p mtu now inner key in
      record {
        consistent =
            add-Consistent n.pool pool n.sessions n.active n.leases n.static_lease i key entry adds
              fresh v.no_session no_lease no_static own;
        config = v.config;
        registered = insert-here key entry n.sessions;
        current = insert-here p.client_id key n.active;
        nonzero = nonzero;
        own = refl;
        keyed = ap (λ c. if c.use_gre_key then key else 0) v.config;
        others = λ k e at other.
            insert-kept key k entry n.sessions (λ same.
              let both : none ≡ some e =
                sym fresh ∙ ap (λ x. lookup x n.sessions) same ∙ v.others k e at other in
              cc)
            ∙ v.others k e at other;
        only = λ k e at. new_or_old k e (insert-cases key k entry e n.sessions at);
      }
    where
      new_or_old :
          (k : ℕ) (e : Entry)
          → ((key ≡ k) × (new_entry (record n { pool = pool }) p mtu now inner key ≡ e))
            ⊎ ((key ≢ k) × (lookup k n.sessions ≡ some e))
          → (key ≡ k) ⊎ (lookup k m.sessions ≡ some e)
      new_or_old k e (inl (same, own)) = inl same
      new_or_old k e (inr (other, old)) = inr (v.only k e old)

  same-Refuses :
      (pool : Pool) → SamePool n.pool pool → Refuses m (record n { pool = pool }) p.client_id
  same-Refuses pool same = record {
    consistent =
        SamePool-Consistent n.pool n.sessions n.active n.leases n.static_lease v.consistent pool
          same;
    config = v.config;
    no_session = v.no_session;
    others = v.others;
  }

  with_address-Establishes :
      (pool : Pool) (inner : Addr) (mtu : ℤ) (now : ℕ) (rands : List ℕ) (ev : Option Entry)
      → Adds n.pool pool inner
      → lease_available_to n p.client_id inner ≡ true
      → ((s : Addr) → lookup p.client_id n.static_lease ≡ some s → inner ≡ s)
      → Establishes m p.client_id (with_address (record n { pool = pool }) p mtu now rands ev inner)
  unfolding with_address
  with_address-Establishes pool inner mtu now rands ev adds good own =
      elim (Option-cases (random_key n.sessions rands)) [
        | inl e ↦
            rw (e, with_address)
              (refused key_generation refl (
                same-Refuses (release pool inner) (
                  undo-SamePool n.pool n.sessions n.active n.leases n.static_lease v.consistent pool
                    inner adds)))
        | inr (key, e) ↦
            let (nonzero, fresh) = random_key-fresh n.sessions rands key e in
            rw (e, with_address)
              (established _ refl
                (register-Serves pool inner mtu now key ev adds good own nonzero fresh))
      ]

  after_alloc-Establishes :
      (r : Pool × Result AllocError Addr) (mtu : ℤ) (now : ℕ) (rands : List ℕ) (ev : Option Entry)
      → Assigns n p.client_id r
      → Establishes m p.client_id (after_alloc n p mtu now rands ev r)
  after_alloc-Establishes (pool, ok a) mtu now rands ev (assigned b e good adds own) =
      let same : b ≡ a = cc in
      with_address-Establishes pool a mtu now rands ev (subst (Adds n.pool pool) same adds)
        (subst (λ x. lease_available_to n p.client_id x ≡ true) same good)
        (λ s h. sym same ∙ own s h)
  after_alloc-Establishes (pool, err e) mtu now rands ev (assigned b x good adds own) = cc
  after_alloc-Establishes (pool, ok a) mtu now rands ev (failed x e fuel same) = cc
  after_alloc-Establishes (pool, err x) mtu now rands ev (failed y e fuel same) =
      refused (no_addresses x) refl (same-Refuses pool same)

through-Purges : (l m n : Manager) (c : Bytes) → Purges l m → Vacant m n c → Vacant l n c
through-Purges l m n c q v = record {
  config = v.config ∙ q.config;
  no_session = v.no_session;
  consistent = v.consistent;
  others = λ k e at other. v.others k e (ap (lookup k) q.sessions ∙ at) other;
  only = λ k e at. ap (lookup k) (sym q.sessions) ∙ v.only k e at;
}

-- From a consistent registry the first critical section of `Establish` leaves a consistent one. It
-- enters a session of the asking client under a fresh key other than 0, or refuses and leaves that
-- client without a session; the sessions of every other client stay as they are.
pub establish_locked-Establishes :
    (m : Manager) (p : SessionParams) (mtu : ℤ) (now : ℕ) (rands : List ℕ)
    → Inv m
    → Establishes m p.client_id (establish_locked m p mtu now rands)
unfolding establish_locked
establish_locked-Establishes m p mtu now rands i =
    let purged = purge_expired_leases m now in
    let q = purge_expired_leases-Purges m now i in
    let n = (evict purged p.client_id).0 in
    let v =
      through-Purges m purged n p.client_id q (evict-Vacant purged p.client_id q.consistent) in
    after_alloc-Establishes m n p v (alloc_inner n p.client_id p.requested_inner) mtu now rands
      (evict purged p.client_id).1
      (alloc_inner-Assigns n p.client_id v.consistent.sound p.requested_inner)

-- ===== src/Session/Ending.antt =====
-- What the rollback of `Establish` and the critical section of `Teardown` do.
use gremlind.Prelude.{
  ℕ, ◌≡◌, ◌≢◌, refl, sym, ap, subst, ◌∙◌, inl, inr, List, Option, none, some, ok, arith, ◌==◌,
  nat_eq, list_eq, Bool-cases, Option-cases,
}
use gremlind.Prelude.Bytes.{Bytes}
use gremlind.Prelude.Int.{ℤ}
use gremlind.Prelude.Maps.{lookup, insert, delete, delete-here}
use gremlind.Net.{addr_eq}
use gremlind.Pool.{release}
use gremlind.Session.Defs.{SessionParams, Entry, Manager}
use gremlind.Session.Registry.{Begun, establish_locked, rollback, teardown}
use gremlind.Session.Consistency.{Inv, drop_lease-Consistent}
use gremlind.Session.Establishing.{
  Serves, Establishes, established, refused, establish_locked-Establishes,
}
use gremlind.Session.Sections.{without, without-Inv}

-- `Teardown` of a live session takes out that session and keeps its lease.
pub data TearsDown (m : Manager) (key now : ℕ) (r : Manager × Option Entry) : Type 0 where
  gone : lookup key m.sessions ≡ none → r ≡ (m, none) → TearsDown m key now r
  torn :
      (e : Entry)
      → lookup key m.sessions ≡ some e
      → r
        ≡ (record (without m key e) { lease_times = insert e.client_id now m.lease_times }, some e)
      → TearsDown m key now r

pub teardown-TearsDown :
    (m : Manager) (key now : ℕ) → Inv m → TearsDown m key now (teardown m key now)
unfolding teardown
teardown-TearsDown m key now i = elim (Option-cases (lookup key m.sessions)) [
  | inl e ↦ rw (e, teardown) (gone e refl)
  | inr (entry, e) ↦
      rw (e, teardown, i.session_active key entry e, (nat_eq.decides key key).1 refl)
        (torn entry e refl)
]

pub teardown-Inv : (m : Manager) (key now : ℕ) → Inv m → Inv (teardown m key now).0
teardown-Inv m key now i = by_cases (teardown m key now) (teardown-TearsDown m key now i)
  where
    by_cases : (r : Manager × Option Entry) → TearsDown m key now r → Inv r.0
    by_cases r (gone absent e) = rw e i
    by_cases r (torn entry at e) = rw e (without-Inv m key entry i at)

-- The rollback takes out the session that it entered, with its lease, unless another took its place.
pub data RollsBack (m : Manager) (key ident : ℕ) (n : Manager) : Type 0 where
  kept :
      ((e : Entry) → lookup key m.sessions ≡ some e → e.ident ≢ ident)
      → n ≡ m
      → RollsBack m key ident n
  rolled :
      (e : Entry)
      → lookup key m.sessions ≡ some e
      → e.ident ≡ ident
      → n ≡ record (without m key e) {
        leases = delete e.client_id m.leases;
        lease_times = delete e.client_id m.lease_times;
      }
      → RollsBack m key ident n

pub rollback-RollsBack :
    (m : Manager) (key ident : ℕ) → Inv m → RollsBack m key ident (rollback m key ident)
unfolding rollback
rollback-RollsBack m key ident i = elim (Option-cases (lookup key m.sessions)) [
  | inl e ↦ rw (e, rollback) (kept (λ f at. cc) refl)
  | inr (entry, e) ↦ elim (Bool-cases (entry.ident == ident)) [
    | inr other ↦
        rw (e, rollback, other)
          (kept (λ f at same. ground (arith, other, nat_eq.decides entry.ident ident)) refl)
    | inl same ↦
        rw (e, rollback, same, i.session_active key entry e, (nat_eq.decides key key).1 refl)
          (rolled entry e ((nat_eq.decides entry.ident ident).0 same) refl)
  ]
]

pub rollback-Inv : (m : Manager) (key ident : ℕ) → Inv m → Inv (rollback m key ident)
rollback-Inv m key ident i = by_cases (rollback m key ident) (rollback-RollsBack m key ident i)
  where
    by_cases : (n : Manager) → RollsBack m key ident n → Inv n
    by_cases n (kept other e) = rw e i
    by_cases n (rolled e at same eq) = rw eq (
        drop_lease-Consistent (release m.pool e.client_inner) (delete key m.sessions)
          (delete e.client_id m.active) m.leases m.static_lease (without-Inv m key e i at)
          e.client_id (delete-here e.client_id m.active))

superseded-teardown :
    (m n : Manager) (client : Bytes) (b : Begun) (old now : ℕ)
    → Inv m
    → Serves m n client b
    → lookup client m.active ≡ some old
    → b.key ≢ old
    → teardown n old now ≡ (n, none)
superseded-teardown m n client b old now i s before other =
    by_cases (teardown-TearsDown n old now s.consistent)
  where
    by_cases : TearsDown n old now (teardown n old now) → teardown n old now ≡ (n, none)
    by_cases (gone absent e) = e
    by_cases (torn e at eq) =
        let (f, was, own) = i.active_session client old before in
        elim (s.only old e at) [
          | inl same ↦ absurd (other same)
          | inr still ↦
              let one : some f ≡ some e = sym was ∙ still in
              let fe : f ≡ e = cc in
              let mine : e.client_id ≡ client = ap (λ x. x.client_id) (sym fe) ∙ own in
              let both : some b.key ≡ some old =
                sym s.current
                ∙ ap (λ c. lookup c n.active) (sym mine)
                ∙ s.consistent.session_active old e at in
              absurd (other cc)
        ]

-- From a consistent registry, after a client with a session has connected again, the teardown of
-- its old session finds nothing and changes nothing, provided that the new session was not given
-- the old key.
pub teardown-superseded :
    (m n : Manager) (p : SessionParams) (mtu : ℤ) (now : ℕ) (rands : List ℕ) (b : Begun)
    (old later : ℕ)
    → Inv m
    → lookup p.client_id m.active ≡ some old
    → establish_locked m p mtu now rands ≡ (n, ok b)
    → b.key ≢ old
    → teardown n old later ≡ (n, none)
teardown-superseded m n p mtu now rands b old later i before e other =
    by_cases
      (subst (Establishes m p.client_id) e (establish_locked-Establishes m p mtu now rands i))
  where
    by_cases : Establishes m p.client_id (n, ok b) → teardown n old later ≡ (n, none)
    by_cases (established c eq s) =
        let same : c ≡ b = cc in
        superseded-teardown m n p.client_id b old later i (subst (Serves m n p.client_id) same s)
          before other
    by_cases (refused x eq s) = cc

-- ===== src/Session/Runs.antt =====
-- The registry over any interleaving of its critical sections.
use gremlind.Prelude.{
  ℕ, ◌≡◌, sym, ap, ◌∙◌, ◌↔◌, ◌⊎◌, inl, inr, true, false, List, [], ◌∷◌, some, Result, arith, nat_eq,
  list_eq,
}
use gremlind.Prelude.Int.{ℤ}
use gremlind.Prelude.Maps.{lookup, lookup-nil, has, Distinct}
use gremlind.Net.{Addr, addr_eq}
use gremlind.Pool.{Pool}
use gremlind.Pool.History.{IsSound}
use gremlind.Session.Defs.{SessionParams, Entry, Config, Manager}
use gremlind.Session.Registry.{establish_locked, rollback, teardown, Refusal, Begun}
use gremlind.Session.Consistency.{Inv, same_inner}
use gremlind.Session.Establishing.{Establishes, established, refused, establish_locked-Establishes}
use gremlind.Session.Ending.{teardown-Inv, rollback-Inv}

-- A critical section that some goroutine runs: the two of `Establish` and the one of `Teardown`.
pub data Section : Type 0 where
  begins : SessionParams → ℤ → ℕ → List ℕ → Section
  rolls_back : ℕ → ℕ → Section
  tears_down : ℕ → ℕ → Section

unfoldable pub enter : Manager → Section → Manager
enter m (begins p mtu now rands) = (establish_locked m p mtu now rands).0
enter m (rolls_back key ident) = rollback m key ident
enter m (tears_down key now) = (teardown m key now).0

unfoldable pub run_sections : Manager → List Section → Manager
run_sections m [] = m
run_sections m (s ∷ ss) = run_sections (enter m s) ss

-- `newWith`: the maps are empty.
unfoldable pub new_manager : Config → Pool → Manager
new_manager config pool = record {
  config = config;
  pool = pool;
  sessions = [];
  active = [];
  leases = [];
  lease_times = [];
  allocated = 0;
}

establish_locked-Inv :
    (m : Manager) (p : SessionParams) (mtu : ℤ) (now : ℕ) (rands : List ℕ)
    → Inv m
    → Inv (establish_locked m p mtu now rands).0
establish_locked-Inv m p mtu now rands i =
    by_cases (establish_locked m p mtu now rands) (establish_locked-Establishes m p mtu now rands i)
  where
    by_cases : (r : Manager × Result Refusal Begun) → Establishes m p.client_id r → Inv r.0
    by_cases r (established b e s) = s.consistent
    by_cases r (refused x e s) = s.consistent

enter-Inv : (m : Manager) (s : Section) → Inv m → Inv (enter m s)
unfolding enter
enter-Inv m (begins p mtu now rands) i = establish_locked-Inv m p mtu now rands i
enter-Inv m (rolls_back key ident) i = rollback-Inv m key ident i
enter-Inv m (tears_down key now) i = teardown-Inv m key now i

run_sections-Inv : (m : Manager) (ss : List Section) → Inv m → Inv (run_sections m ss)
unfolding run_sections
run_sections-Inv m [] i = i
run_sections-Inv m (s ∷ ss) i = run_sections-Inv (enter m s) ss (enter-Inv m s i)

pub new_manager-Inv :
    (config : Config) (pool : Pool)
    → IsSound pool
    → ((a : Addr) → has a pool.used ≡ false)
    → Distinct config.static_lease
    → Inv (new_manager config pool)
unfolding new_manager
new_manager-Inv config pool sound unused static = record {
  sound = sound;
  session_active = λ k e h. ground (arith, lookup-nil {V = Entry} k, h);
  active_session = λ c k h. ground (arith, lookup-nil {V = ℕ} c, h);
  session_lease = λ k e h. ground (arith, lookup-nil {V = Entry} k, h);
  session_used = λ k e h. ground (arith, lookup-nil {V = Entry} k, h);
  used_session = λ a h. ground (arith, unused a, h);
  lease_owner = λ c d a h _. ground (arith, lookup-nil {V = Addr} c, h);
  static_owner = λ c d a h _. ground (arith, lookup-nil {V = Addr} c, h);
  static_lease = λ c a s h _. ground (arith, lookup-nil {V = Addr} c, h);
  leased = λ c a h. ground (arith, lookup-nil {V = Addr} c, h);
  distinct = tt;
  static_distinct = static;
}

module _ (config : Config) (pool : Pool) (sound : IsSound pool)
    (unused : (a : Addr) → has a pool.used ≡ false) (static : Distinct config.static_lease)
    (ss : List Section) where
  abbrev reached : Manager
  reached = run_sections (new_manager config pool) ss

  -- From an empty registry over a sound pool without an address in use, with one static lease a
  -- client, any interleaving of the critical sections of `Establish` and `Teardown`, those of
  -- failed and of stale calls included, leaves the sessions, the active keys, the leases and the
  -- pool consistent.
  pub run-new_manager-Inv : Inv (run_sections (new_manager config pool) ss)
  run-new_manager-Inv =
      run_sections-Inv (new_manager config pool) ss
        (new_manager-Inv config pool sound unused static)

  -- From an empty registry over a sound pool without an address in use, with one static lease a
  -- client, and after any interleaving of the critical sections of `Establish` and `Teardown`, two
  -- live sessions of one client, or of one inner address, are the same session.
  pub run-one_session :
      (j k : ℕ) (e f : Entry)
      → lookup j (run_sections (new_manager config pool) ss).sessions ≡ some e
      → lookup k (run_sections (new_manager config pool) ss).sessions ≡ some f
      → (e.client_id ≡ f.client_id) ⊎ (e.client_inner ≡ f.client_inner)
      → j ≡ k
  run-one_session j k e f x y (inl same) =
      let i = run-new_manager-Inv in
      let both : some j ≡ some k =
        sym (i.session_active j e x)
        ∙ ap (λ c. lookup c reached.active) same
        ∙ i.session_active k f y in
      cc
  run-one_session j k e f x y (inr same) =
      same_inner reached.pool reached.sessions reached.active reached.leases reached.static_lease
        run-new_manager-Inv j k e f x y same

  -- From an empty registry over a sound pool without an address in use, with one static lease a
  -- client, and after any interleaving of the critical sections of `Establish` and `Teardown`, the
  -- pool's used addresses are exactly those of the live sessions: none leaks, and none is free
  -- while a session has it.
  pub run-used :
      (a : Addr)
      → (has a (run_sections (new_manager config pool) ss).pool.used ≡ true) ↔ (
          (k : ℕ) × (e : Entry) × (lookup k (run_sections (new_manager config pool) ss).sessions
            ≡ some e)
          × (e.client_inner ≡ a))
  run-used a =
      let i = run-new_manager-Inv in
      (
        i.used_session a,
        λ h.
            let (k, e, at, own) = h in
            ap (λ x. has x reached.pool.used) (sym own) ∙ i.session_used k e at,
      )

-- ===== src/Session/Consistency.antt =====
-- The invariant between the maps of internal/session/manager.go and the pool, and what adding and
-- removing a session or a lease does to it.
use gremlind.Prelude.{
  ℕ, ◌≡◌, ◌≢◌, sym, ap, ◌∙◌, true, false, none, some, arith, ◌==◌, nat_eq, list_eq, if◌then◌else◌,
}
use gremlind.Prelude.Bytes.{Bytes}
use gremlind.Prelude.Maps.{
  Map, lookup, delete, delete-kept, delete-survives, has, has-delete, Distinct, delete-Distinct,
}
use gremlind.Net.{Addr, addr_eq, addr_eqb_iff, contains}
use gremlind.Pool.{Pool, release}
use gremlind.Pool.History.{IsSound, release-IsSound}
use gremlind.Session.Defs.{Entry, Manager}
use gremlind.Session.Holding.{SamePool, Adds}

-- The registry, the active map and the leases agree with the pool and with the static leases.
pub record Consistent (pool : Pool) (sessions : Map ℕ Entry) (active : Map Bytes ℕ)
    (leases static : Map Bytes Addr) : Type 0 where
  pub sound : IsSound pool
  pub session_active :
      (k : ℕ) (e : Entry) → lookup k sessions ≡ some e → lookup e.client_id active ≡ some k
  pub active_session :
      (c : Bytes) (k : ℕ)
      → lookup c active ≡ some k
      → (e : Entry) × (lookup k sessions ≡ some e) × (e.client_id ≡ c)
  pub session_lease :
      (k : ℕ) (e : Entry)
      → lookup k sessions ≡ some e
      → lookup e.client_id leases ≡ some e.client_inner
  pub session_used :
      (k : ℕ) (e : Entry) → lookup k sessions ≡ some e → has e.client_inner pool.used ≡ true
  pub used_session :
      (a : Addr)
      → has a pool.used ≡ true
      → (k : ℕ) × (e : Entry) × (lookup k sessions ≡ some e) × (e.client_inner ≡ a)
  pub lease_owner :
      (c d : Bytes) (a : Addr) → lookup c leases ≡ some a → lookup d leases ≡ some a → c ≡ d
  pub static_owner :
      (c d : Bytes) (a : Addr) → lookup c leases ≡ some a → lookup d static ≡ some a → c ≡ d
  pub static_lease :
      (c : Bytes) (a s : Addr) → lookup c leases ≡ some a → lookup c static ≡ some s → a ≡ s
  pub leased :
      (c : Bytes) (a : Addr)
      → lookup c leases ≡ some a
      → (contains pool.prefix a ≡ true) × (has a pool.reserved ≡ false)
  pub distinct : Distinct leases
  pub static_distinct : Distinct static

abbrev pub Inv : Manager → Type 0
Inv m = Consistent m.pool m.sessions m.active m.leases m.static_lease

module _ (p : Pool) (S : Map ℕ Entry) (A : Map Bytes ℕ) (L T : Map Bytes Addr)
    (i : Consistent p S A L T) where
  -- Two sessions of one address are one session.
  pub same_inner :
      (j k : ℕ) (e f : Entry)
      → lookup j S ≡ some e
      → lookup k S ≡ some f
      → e.client_inner ≡ f.client_inner
      → j ≡ k
  same_inner j k e f se sf same =
      let owner : e.client_id ≡ f.client_id =
        i.lease_owner e.client_id f.client_id f.client_inner (i.session_lease j e se ∙ ap some same)
          (i.session_lease k f sf) in
      let both : some j ≡ some k =
        sym (i.session_active j e se) ∙ ap (λ c. lookup c A) owner ∙ i.session_active k f sf in
      cc

  module _ (k : ℕ) (e : Entry) (at : lookup k S ≡ some e) where
    -- The client of another session is another client.
    other_client : (j : ℕ) (f : Entry) → lookup j S ≡ some f → k ≢ j → e.client_id ≢ f.client_id
    other_client j f sf other same =
        let both : some k ≡ some j =
          sym (i.session_active k e at) ∙ ap (λ c. lookup c A) same ∙ i.session_active j f sf in
        other cc

    released :
        (a : Addr)
        → has a (release p e.client_inner).used
          ≡ (if e.client_inner == a then false else has a p.used)
    unfolding release
    released a = has-delete e.client_inner a p.used

    active-survives :
        (c : Bytes) (j : ℕ)
        → lookup c (delete e.client_id A) ≡ some j
        → (f : Entry) × (lookup j (delete k S) ≡ some f) × (f.client_id ≡ c)
    active-survives c j h =
        let (other, old) = delete-survives e.client_id c j A h in
        let (f, sf, own) = i.active_session c j old in
        (
          f,
          delete-kept k j S (λ same.
                let both : some e ≡ some f = sym at ∙ ap (λ x. lookup x S) same ∙ sf in
                let one : e ≡ f = cc in other (ap (λ x. x.client_id) one ∙ own))
              ∙ sf,
          own,
        )

    used-survives :
        (a : Addr)
        → has a (release p e.client_inner).used ≡ true
        → (j : ℕ) × (f : Entry) × (lookup j (delete k S) ≡ some f) × (f.client_inner ≡ a)
    used-survives a h =
        let (j, f, sf, own) = i.used_session a (ground (arith, released a)) in
        (
          j,
          f,
          delete-kept k j S (λ same.
                let both : some e ≡ some f = sym at ∙ ap (λ x. lookup x S) same ∙ sf in
                let one : e ≡ f = cc in
                let mine : e.client_inner ≡ a = ap (λ x. x.client_inner) one ∙ own in
                ground (arith, released a, addr_eqb_iff e.client_inner a))
              ∙ sf,
          own,
        )

    session-used :
        (j : ℕ) (f : Entry)
        → lookup j S ≡ some f
        → k ≢ j
        → has f.client_inner (release p e.client_inner).used ≡ true
    session-used j f sf other = ground (
      arith,
      released f.client_inner,
      i.session_used j f sf,
      addr_eqb_iff e.client_inner f.client_inner,
      same_inner k j e f at sf,
    )

    -- Taking a session out of both maps and its address out of the pool.
    pub remove-Consistent :
        Consistent (release p e.client_inner) (delete k S) (delete e.client_id A) L T
    unfolding release
    remove-Consistent = record {
      sound = release-IsSound p e.client_inner i.sound;
      session_active = λ j f h.
          let (other, old) = delete-survives k j f S h in
          delete-kept e.client_id f.client_id A (other_client j f old other)
          ∙ i.session_active j f old;
      active_session = active-survives;
      session_lease = λ j f h. i.session_lease j f (delete-survives k j f S h).1;
      session_used =
          λ j f h. let (other, old) = delete-survives k j f S h in session-used j f old other;
      used_session = used-survives;
      lease_owner = i.lease_owner;
      static_owner = i.static_owner;
      static_lease = i.static_lease;
      leased = i.leased;
      distinct = i.distinct;
      static_distinct = i.static_distinct;
    }

  -- Taking away the lease of a client without a session.
  pub drop_lease-Consistent : (c : Bytes) → lookup c A ≡ none → Consistent p S A (delete c L) T
  drop_lease-Consistent c idle = record {
    sound = i.sound;
    session_active = i.session_active;
    active_session = i.active_session;
    session_lease = λ j f h.
        delete-kept c f.client_id L (λ same.
          let both : none ≡ some j =
            sym idle ∙ ap (λ x. lookup x A) same ∙ i.session_active j f h in
          cc)
        ∙ i.session_lease j f h;
    session_used = i.session_used;
    used_session = i.used_session;
    lease_owner = λ d e a x y.
        i.lease_owner d e a (delete-survives c d a L x).1 (delete-survives c e a L y).1;
    static_owner = λ d e a x y. i.static_owner d e a (delete-survives c d a L x).1 y;
    static_lease = λ d a s x y. i.static_lease d a s (delete-survives c d a L x).1 y;
    leased = λ d a x. i.leased d a (delete-survives c d a L x).1;
    distinct = delete-Distinct c L i.distinct;
    static_distinct = i.static_distinct;
  }

  -- A pool that shows the same is as good.
  pub SamePool-Consistent : (q : Pool) → SamePool p q → Consistent q S A L T
  SamePool-Consistent q same = record {
    sound = same.sound;
    session_active = i.session_active;
    active_session = i.active_session;
    session_lease = i.session_lease;
    session_used = λ k e h. same.used e.client_inner ∙ i.session_used k e h;
    used_session = λ a h. i.used_session a (sym (same.used a) ∙ h);
    lease_owner = i.lease_owner;
    static_owner = i.static_owner;
    static_lease = i.static_lease;
    leased = λ c a h. rw (same.prefix, same.reserved) (i.leased c a h);
    distinct = i.distinct;
    static_distinct = i.static_distinct;
  }

  -- Taking an address out of the pool and putting it back.
  pub undo-SamePool : (q : Pool) (a : Addr) → Adds p q a → SamePool p (release q a)
  unfolding release
  undo-SamePool q a d = record {
    sound = release-IsSound q a d.sound;
    prefix = d.prefix;
    reserved = d.reserved;
    pinned = d.pinned;
    used = λ b. ground (arith, has-delete a b q.used, d.used b, d.fresh, addr_eqb_iff a b);
  }

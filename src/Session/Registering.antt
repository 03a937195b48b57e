-- ===== src/Session/Registering.antt =====
-- Entering a session into the maps of internal/session/manager.go keeps them consistent.
use gremlind.Prelude.{
  ℕ, ◌≡◌, ◌≢◌, sym, ap, subst, ◌∙◌, inl, inr, true, false, none, some, arith, ◌==◌, nat_eq, list_eq,
  Bool-cases,
}
use gremlind.Prelude.Bytes.{Bytes}
use gremlind.Prelude.Maps.{
  Map, lookup, insert, insert-here, insert-kept, insert-cases, has, insert-Distinct,
}
use gremlind.Net.{Addr, addr_eq, addr_eqb_iff, contains}
use gremlind.Pool.{Pool}
use gremlind.Session.Defs.{Entry}
use gremlind.Session.Holding.{Adds}
use gremlind.Session.Consistency.{Consistent}

module _ (p q : Pool) (S : Map ℕ Entry) (A : Map Bytes ℕ) (L T : Map Bytes Addr)
    (i : Consistent p S A L T) (k : ℕ) (e : Entry) (adds : Adds p q e.client_inner)
    (new_key : lookup k S ≡ none) (idle : lookup e.client_id A ≡ none)
    (no_lease : (d : Bytes) → lookup d L ≡ some e.client_inner → d ≡ e.client_id)
    (no_static : (d : Bytes) → lookup d T ≡ some e.client_inner → d ≡ e.client_id)
    (own_static : (s : Addr) → lookup e.client_id T ≡ some s → e.client_inner ≡ s) where
  other_key : (j : ℕ) (f : Entry) → lookup j S ≡ some f → k ≢ j
  other_key j f h same =
      let both : none ≡ some f = sym new_key ∙ ap (λ x. lookup x S) same ∙ h in cc

  other_client : (j : ℕ) (f : Entry) → lookup j S ≡ some f → e.client_id ≢ f.client_id
  other_client j f h same =
      let both : none ≡ some j = sym idle ∙ ap (λ x. lookup x A) same ∙ i.session_active j f h in cc

  still_used : (a : Addr) → has a p.used ≡ true → has a q.used ≡ true
  still_used a h = ground (arith, adds.used a)

  entry_active :
      (j : ℕ) (f : Entry)
      → lookup j (insert k e S) ≡ some f
      → lookup f.client_id (insert e.client_id k A) ≡ some j
  entry_active j f h = elim (insert-cases k j e f S h) [
    | inl (same, own) ↦
        subst (λ x. lookup x.client_id (insert e.client_id k A) ≡ some j) own
          (insert-here e.client_id k A ∙ ap some same)
    | inr (other, old) ↦
        insert-kept e.client_id f.client_id k A (other_client j f old) ∙ i.session_active j f old
  ]

  active_entry :
      (c : Bytes) (j : ℕ)
      → lookup c (insert e.client_id k A) ≡ some j
      → (f : Entry) × (lookup j (insert k e S) ≡ some f) × (f.client_id ≡ c)
  active_entry c j h = elim (insert-cases e.client_id c k j A h) [
    | inl (own, same) ↦
        (e, subst (λ x. lookup x (insert k e S) ≡ some e) same (insert-here k e S), own)
    | inr (other, old) ↦
        let (f, sf, own) = i.active_session c j old in
        (f, insert-kept k j e S (other_key j f sf) ∙ sf, own)
  ]

  entry_lease :
      (j : ℕ) (f : Entry)
      → lookup j (insert k e S) ≡ some f
      → lookup f.client_id (insert e.client_id e.client_inner L) ≡ some f.client_inner
  entry_lease j f h = elim (insert-cases k j e f S h) [
    | inl (same, own) ↦
        subst (λ x. lookup x.client_id (insert e.client_id e.client_inner L) ≡ some x.client_inner)
          own (insert-here e.client_id e.client_inner L)
    | inr (other, old) ↦
        insert-kept e.client_id f.client_id e.client_inner L (other_client j f old)
        ∙ i.session_lease j f old
  ]

  entry_used :
      (j : ℕ) (f : Entry) → lookup j (insert k e S) ≡ some f → has f.client_inner q.used ≡ true
  entry_used j f h = elim (insert-cases k j e f S h) [
    | inl (same, own) ↦
        subst (λ x. has x.client_inner q.used ≡ true) own
          (ground (arith, adds.used e.client_inner, addr_eqb_iff e.client_inner e.client_inner))
    | inr (other, old) ↦ still_used f.client_inner (i.session_used j f old)
  ]

  used_entry :
      (a : Addr)
      → has a q.used ≡ true
      → (j : ℕ) × (f : Entry) × (lookup j (insert k e S) ≡ some f) × (f.client_inner ≡ a)
  used_entry a h = elim (Bool-cases (e.client_inner == a)) [
    | inl mine ↦ (k, e, insert-here k e S, (addr_eqb_iff e.client_inner a).0 mine)
    | inr other ↦
        let (j, f, sf, own) = i.used_session a (ground (arith, adds.used a)) in
        (j, f, insert-kept k j e S (other_key j f sf) ∙ sf, own)
  ]

  -- Whoever has a lease on the new address is the new session's client.
  only_owner :
      (c d : Bytes) (a : Addr) → e.client_id ≡ c → e.client_inner ≡ a → lookup d L ≡ some a → c ≡ d
  only_owner c d a own same h = sym own ∙ sym (no_lease d (h ∙ ap some (sym same)))

  owner :
      (c d : Bytes) (a : Addr)
      → lookup c (insert e.client_id e.client_inner L) ≡ some a
      → lookup d (insert e.client_id e.client_inner L) ≡ some a
      → c ≡ d
  owner c d a x y = elim (insert-cases e.client_id c e.client_inner a L x) [
    | inl (own, same) ↦ elim (insert-cases e.client_id d e.client_inner a L y) [
      | inl (own2, _) ↦ sym own ∙ own2
      | inr (_, old) ↦ only_owner c d a own same old
    ]
    | inr (_, old) ↦ elim (insert-cases e.client_id d e.client_inner a L y) [
      | inl (own2, same) ↦ sym (only_owner d c a own2 same old)
      | inr (_, old2) ↦ i.lease_owner c d a old old2
    ]
  ]

  static_only :
      (c d : Bytes) (a : Addr)
      → lookup c (insert e.client_id e.client_inner L) ≡ some a
      → lookup d T ≡ some a
      → c ≡ d
  static_only c d a x y = elim (insert-cases e.client_id c e.client_inner a L x) [
    | inl (own, same) ↦ sym own ∙ sym (no_static d (y ∙ ap some (sym same)))
    | inr (_, old) ↦ i.static_owner c d a old y
  ]

  own_lease :
      (c : Bytes) (a s : Addr)
      → lookup c (insert e.client_id e.client_inner L) ≡ some a
      → lookup c T ≡ some s
      → a ≡ s
  own_lease c a s x y = elim (insert-cases e.client_id c e.client_inner a L x) [
    | inl (own, same) ↦ sym same ∙ own_static s (ap (λ z. lookup z T) own ∙ y)
    | inr (_, old) ↦ i.static_lease c a s old y
  ]

  Usable : Pool → Addr → Type 0
  Usable r a = (contains r.prefix a ≡ true) × (has a r.reserved ≡ false)

  usable :
      (c : Bytes) (a : Addr) → lookup c (insert e.client_id e.client_inner L) ≡ some a → Usable q a
  unfolding Usable
  usable c a x = elim (insert-cases e.client_id c e.client_inner a L x) [
    | inl (_, same) ↦
        subst (Usable q) same
          (adds.sound.inside e.client_inner now, adds.sound.unreserved e.client_inner now)
    | inr (_, old) ↦ rw (adds.prefix, adds.reserved) (i.leased c a old)
  ]
    where
      now : has e.client_inner q.used ≡ true
      now = ground (arith, adds.used e.client_inner, addr_eqb_iff e.client_inner e.client_inner)

  -- The four writes keep the maps consistent, when the address was free, the key is new, and the
  -- client has no session and shares the address with no other client's lease.
  pub add-Consistent :
      Consistent q (insert k e S) (insert e.client_id k A) (insert e.client_id e.client_inner L) T
  add-Consistent = record {
    sound = adds.sound;
    session_active = entry_active;
    active_session = active_entry;
    session_lease = entry_lease;
    session_used = entry_used;
    used_session = used_entry;
    lease_owner = owner;
    static_owner = static_only;
    static_lease = own_lease;
    leased = unfold Usable in usable;
    distinct = insert-Distinct e.client_id e.client_inner L i.distinct;
    static_distinct = i.static_distinct;
  }

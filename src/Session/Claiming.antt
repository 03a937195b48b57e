-- ===== src/Session/Claiming.antt =====
-- `leaseAvailableToLocked` and `purgeExpiredLeasesLocked` against the maps they read.
use gremlind.Prelude.{
  ℕ, ◌≡◌, refl, sym, ap, ◌∙◌, ◌⊎◌, ◌↔◌, inl, inr, true, false, ◌&&◌, not, [], ◌∷◌, none, some,
  arith, ◌==◌, Key, nat_eq, list_eq, Bool-cases, Option-cases,
}
use gremlind.Prelude.Bytes.{Bytes}
use gremlind.Prelude.Int.{leb_ℤ, ltb_ℤ, pos, ◌-ℤ◌}
use gremlind.Prelude.Maps.{Map, lookup, Distinct, is_some, delete, delete-kept, delete-survives}
use gremlind.Net.{Addr, addr_eq, addr_eqb_iff}
use gremlind.Session.Defs.{Manager}
use gremlind.Session.Leases.{
  claimed_by_other, lease_available_to, purge_one, purge_all, purge_expired_leases,
}
use gremlind.Session.Consistency.{Inv, drop_lease-Consistent}

bytes_iff : (c d : Bytes) → (c == d ≡ true) ↔ (c ≡ d)
bytes_iff c d = same.decides c d
  where
    same : Key Bytes
    same = list_eq

-- An unclaimed address stands in the map under the asking client alone.
pub not-claimed :
    (c : Bytes) (a : Addr) (m : Map Bytes Addr)
    → claimed_by_other c a m ≡ false
    → (d : Bytes) → lookup d m ≡ some a
    → d ≡ c
unfolding claimed_by_other lookup
not-claimed c a [] h d x = cc
not-claimed c a ((o, l) ∷ m) h d x = elim (Bool-cases (o == d)) [
  | inl at ↦
      let od : o ≡ d = (bytes_iff o d).0 at in
      let la : l ≡ a = ground (arith, x, at) in
      sym od ∙ (bytes_iff o c).0 (ground (arith, h, (addr_eqb_iff l a).1 la))
  | inr past ↦ not-claimed c a m (ground (arith, h)) d (ground (arith, x, past))
]

-- And the other way round, where every key has one entry.
pub claimed :
    (c : Bytes) (a : Addr) (m : Map Bytes Addr)
    → Distinct m
    → ((d : Bytes) → lookup d m ≡ some a → d ≡ c)
    → claimed_by_other c a m ≡ false
unfolding claimed_by_other lookup
claimed c a [] dis h = refl
claimed c a ((o, l) ∷ m) dis h =
    ground (arith, claimed c a m dis.1 later, head (Bool-cases (l == a)))
  where
    later : (d : Bytes) → lookup d m ≡ some a → d ≡ c
    later d x = elim (Bool-cases (o == d)) [
      | inl at ↦
          let od : o ≡ d = (bytes_iff o d).0 at in
          let both : none ≡ some a = sym dis.0 ∙ ap (λ z. lookup z m) od ∙ x in cc
      | inr past ↦ h d (rw past x)
    ]

    head : (l == a ≡ true) ⊎ (l == a ≡ false) → (not (o == c) && l == a) ≡ false
    head (inr other) = ground (arith, other)
    head (inl same) =
        let oc : o ≡ c = h o (rw ((bytes_iff o o).1 refl) (ap some ((addr_eqb_iff l a).0 same))) in
        ground (arith, (bytes_iff o c).1 oc)

module _ (m : Manager) (c : Bytes) (a : Addr) where
  -- What an address that is available says of the leases.
  pub available-owners :
      lease_available_to m c a ≡ true
      → ((d : Bytes) → lookup d m.leases ≡ some a → d ≡ c)
        × ((d : Bytes) → lookup d m.static_lease ≡ some a → d ≡ c)
  unfolding lease_available_to
  available-owners h = (
    not-claimed c a m.leases (ground (arith, h)),
    not-claimed c a m.static_lease (ground (arith, h)),
  )

  -- A client's own lease is available to it.
  pub own-available : Inv m → lookup c m.leases ≡ some a → lease_available_to m c a ≡ true
  unfolding lease_available_to
  own-available i own = ground (
    arith,
    claimed c a m.leases i.distinct (λ d x. i.lease_owner d c a x own),
    claimed c a m.static_lease i.static_distinct (λ d x. sym (i.static_owner c d a own x)),
  )

-- A purge takes leases away from clients without a session, and does nothing else.
pub record Purges (m n : Manager) : Type 0 where
  pub config : n.config ≡ m.config
  pub pool : n.pool ≡ m.pool
  pub sessions : n.sessions ≡ m.sessions
  pub active : n.active ≡ m.active
  pub allocated : n.allocated ≡ m.allocated
  pub fewer : (c : Bytes) (a : Addr) → lookup c n.leases ≡ some a → lookup c m.leases ≡ some a
  pub kept :
      (c : Bytes) → is_some (lookup c m.active) ≡ true → lookup c n.leases ≡ lookup c m.leases
  pub consistent : Inv n

Purges-refl : (m : Manager) → Inv m → Purges m m
Purges-refl m i = record {
  config = refl;
  pool = refl;
  sessions = refl;
  active = refl;
  allocated = refl;
  fewer = λ c a h. h;
  kept = λ c h. refl;
  consistent = i;
}

Purges-trans : (l m n : Manager) → Purges l m → Purges m n → Purges l n
Purges-trans l m n p q = record {
  config = q.config ∙ p.config;
  pool = q.pool ∙ p.pool;
  sessions = q.sessions ∙ p.sessions;
  active = q.active ∙ p.active;
  allocated = q.allocated ∙ p.allocated;
  fewer = λ c a h. p.fewer c a (q.fewer c a h);
  kept = λ c h. q.kept c (ap (λ x. is_some (lookup c x)) p.active ∙ h) ∙ p.kept c h;
  consistent = q.consistent;
}

drop-Purges :
    (m : Manager) (c : Bytes) (t : Map Bytes ℕ)
    → Inv m
    → lookup c m.active ≡ none
    → Purges m (record m { leases = delete c m.leases; lease_times = t })
drop-Purges m c t i idle = record {
  config = refl;
  pool = refl;
  sessions = refl;
  active = refl;
  allocated = refl;
  fewer = λ d a h. (delete-survives c d a m.leases h).1;
  kept = λ d h. delete-kept c d m.leases (λ same.
      let gone : false ≡ true =
        ap is_some (sym idle) ∙ ap (λ x. is_some (lookup x m.active)) same ∙ h in
      cc);
  consistent = drop_lease-Consistent m.pool m.sessions m.active m.leases m.static_lease i c idle;
}

purge_one-Purges :
    (now : ℕ) (m : Manager) (c : Bytes) (t : ℕ) → Inv m → Purges m (purge_one now m c t)
unfolding purge_one
purge_one-Purges now m c t i = elim (Option-cases (lookup c m.active)) [
  | inr (k, e) ↦ rw e (Purges-refl m i)
  | inl idle ↦ rw idle (elim (Bool-cases (ltb_ℤ m.lease_ttl (pos now -ℤ pos t))) [
    | inl old ↦ rw old (drop-Purges m c (delete c m.lease_times) i idle)
    | inr young ↦ rw young (Purges-refl m i)
  ])
]

purge_all-Purges :
    (now : ℕ) (times : Map Bytes ℕ) (m : Manager) → Inv m → Purges m (purge_all now times m)
unfolding purge_all
purge_all-Purges now [] m i = Purges-refl m i
purge_all-Purges now ((c, t) ∷ times) m i =
    let first = purge_one-Purges now m c t i in
    Purges-trans m _ _ first (purge_all-Purges now times (purge_one now m c t) first.consistent)

-- From a consistent registry, `purgeExpiredLeasesLocked` takes away leases of clients without a
-- session only, changes nothing else but their times, and leaves the registry consistent.
pub purge_expired_leases-Purges :
    (m : Manager) (now : ℕ) → Inv m → Purges m (purge_expired_leases m now)
unfolding purge_expired_leases
purge_expired_leases-Purges m now i = elim (Bool-cases (leb_ℤ m.lease_ttl (pos 0))) [
  | inl off ↦ rw off (Purges-refl m i)
  | inr on ↦ rw on (purge_all-Purges now m.lease_times m i)
]

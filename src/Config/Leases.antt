-- ===== src/Config/Leases.antt =====
-- The static leases of a configuration that `ValidateServer` accepts.
use gremlind.Prelude.{
  ◌≡◌, ◌≢◌, ◌↔◌, sym, ap, subst, ◌∙◌, inl, inr, true, not, [], ◌∷◌, Option, none, some, ok, err,
  ◌==◌, nat_eq, list_eq, if◌then◌else◌, arith,
}
use gremlind.Prelude.Bytes.{Bytes}
use gremlind.Prelude.Maps.{
  Map, lookup, insert, is_some, lookup-nil, insert-here, insert-none, cons-cases,
}
use gremlind.Net.{Addr, addr_eq, addr_eqb_iff, is4, Prefix, contains}
use gremlind.Control.Identity.{valid_client_id}
use gremlind.Config.{
  invalid_id, invalid_lease, wrong_family, lease_outside, server_lease, duplicate_lease,
  ServerConfig, parsed, check_leases, check_lease, validate_server,
}
use gremlind.Config.Validated.{
  require-ok, require-last, >>-ok, not-true, not_some, validate_server-Passed,
}

pub record LeasesOk (pool : Prefix) (inner : Addr) (seen : Map Addr Bytes)
    (m : Map Bytes (Option Addr)) : Type 0 where
  pub inside : (id : Bytes) (a : Addr) → lookup id m ≡ some (some a) → contains pool a ≡ true
  pub not_server : (id : Bytes) (a : Addr) → lookup id m ≡ some (some a) → a ≢ inner
  pub fresh : (id : Bytes) (a : Addr) → lookup id m ≡ some (some a) → lookup a seen ≡ none
  pub distinct :
      (c d : Bytes) (a : Addr) → lookup c m ≡ some (some a) → lookup d m ≡ some (some a) → c ≡ d

module _ (pool : Prefix) (inner : Addr) where
  module _ (id : Bytes) (a : Addr) (seen : Map Addr Bytes) (m : Map Bytes (Option Addr))
      (ih : LeasesOk pool inner (insert a id seen) m) where
    not_later : (d : Bytes) → lookup d m ≡ some (some a) → ⊥
    not_later d x = let both : none ≡ some id = sym (ih.fresh d a x) ∙ insert-here a id seen in cc

    cons-distinct :
        (c d : Bytes) (n : Addr)
        → lookup c ((id, some a) ∷ m) ≡ some (some n)
        → lookup d ((id, some a) ∷ m) ≡ some (some n)
        → c ≡ d
    cons-distinct c d n x y = elim (cons-cases id c (some a) (some n) m x) [
      | inl (own, same) ↦ elim (cons-cases id d (some a) (some n) m y) [
        | inl (own2, _) ↦ sym own ∙ own2
        | inr later ↦ absurd (not_later d (later ∙ ap some (sym same)))
      ]
      | inr later ↦ elim (cons-cases id d (some a) (some n) m y) [
        | inl (own2, same) ↦ absurd (not_later c (later ∙ ap some (sym same)))
        | inr later2 ↦ ih.distinct c d n later later2
      ]
    ]

    cons-LeasesOk :
        contains pool a ≡ true
        → a ≢ inner
        → lookup a seen ≡ none
        → LeasesOk pool inner seen ((id, some a) ∷ m)
    cons-LeasesOk good other new = record {
      inside = λ c n x. elim (cons-cases id c (some a) (some n) m x) [
        | inl (_, same) ↦ let an : a ≡ n = cc in subst (λ z. contains pool z ≡ true) an good
        | inr later ↦ ih.inside c n later
      ];
      not_server = λ c n x. elim (cons-cases id c (some a) (some n) m x) [
        | inl (_, same) ↦ let an : a ≡ n = cc in subst (λ z. z ≢ inner) an other
        | inr later ↦ ih.not_server c n later
      ];
      fresh = λ c n x. elim (cons-cases id c (some a) (some n) m x) [
        | inl (_, same) ↦ let an : a ≡ n = cc in subst (λ z. lookup z seen ≡ none) an new
        | inr later ↦ insert-none a n id seen (ih.fresh c n later)
      ];
      distinct = cons-distinct;
    }

  -- What the checks of one lease establish.
  check_lease-ok :
      (seen : Map Addr Bytes) (a : Addr)
      → check_lease pool inner seen a ≡ ok tt
      → (contains pool a ≡ true) × (a ≢ inner) × (lookup a seen ≡ none)
  unfolding check_lease
  check_lease-ok seen a h =
      let (_, h1) =
        require-ok (if is4 a then is4 pool.addr else not (is4 pool.addr)) wrong_family _ h in
      let (good, h2) = require-ok (contains pool a) lease_outside _ h1 in
      let (other, h3) = require-ok (not (a == inner)) server_lease _ h2 in
      let new = require-last (not (is_some (lookup a seen))) duplicate_lease h3 in
      (
        good,
        λ same. ground (arith, other, (addr_eqb_iff a inner).1 same),
        not_some (lookup a seen) (not-true (is_some (lookup a seen)) new),
      )

  check_leases-LeasesOk :
      (seen : Map Addr Bytes) (m : Map Bytes (Option Addr))
      → check_leases pool inner seen m ≡ ok tt
      → LeasesOk pool inner seen m
  unfolding check_leases
  check_leases-LeasesOk seen [] h = record {
    inside = λ c n x. ground (arith, lookup-nil {V = Option Addr} c, x);
    not_server = λ c n x _. ground (arith, lookup-nil {V = Option Addr} c, x);
    fresh = λ c n x. ground (arith, lookup-nil {V = Option Addr} c, x);
    distinct = λ c d n x y. ground (arith, lookup-nil {V = Option Addr} c, x);
  }
  check_leases-LeasesOk seen ((id, none) ∷ m) h =
      let (_, bad) = require-ok (valid_client_id id) invalid_id (err invalid_lease) h in cc
  check_leases-LeasesOk seen ((id, some a) ∷ m) h =
      let (_, h1) = require-ok (valid_client_id id) invalid_id _ h in
      let (checked, rest) = >>-ok (check_lease pool inner seen a) _ h1 in
      let (good, other, new) = check_lease-ok seen a checked in
      cons-LeasesOk id a seen m (check_leases-LeasesOk (insert a id seen) m rest) good other new

-- In a configuration that `ValidateServer` accepts, a static lease lies in the pool, is not the
-- server's own address, and belongs to one client.
pub validate_server-leases :
    (c : ServerConfig) (pool : Prefix) (inner : Addr) (id d : Bytes) (a : Addr)
    → c.inner_pool ≡ parsed pool
    → c.server_inner ≡ parsed inner
    → validate_server c ≡ ok tt
    → lookup id c.leases ≡ some (some a)
    → (contains pool a ≡ true) × (a ≢ inner) × ((lookup d c.leases ≡ some (some a)) ↔ (d ≡ id))
validate_server-leases c pool inner id d a p i h lease =
    let l =
      check_leases-LeasesOk pool inner [] c.leases
        (validate_server-Passed c pool inner p i h).leases in
    (
      l.inside id a lease,
      l.not_server id a lease,
      (λ other. l.distinct d id a other lease, λ same. ap (λ x. lookup x c.leases) same ∙ lease),
    )

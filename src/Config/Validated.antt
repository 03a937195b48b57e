-- ===== src/Config/Validated.antt =====
-- What a configuration that `ValidateServer` accepts guarantees to the session manager.
use gremlind.Prelude.{
  ℕ, ◌≡◌, ◌≢◌, refl, sym, ap, subst, ◌∙◌, ◌↔◌, inl, inr, Bool, true, false, ◌&&◌, not, [], ◌∷◌,
  Option, none, some, Result, ok, err, length, ltb, ◌==◌, nat_eq, list_eq, ◌>>◌, arith,
}
use gremlind.Prelude.Bytes.{Bytes}
use gremlind.Prelude.Maps.{
  Map, lookup, insert, is_some, lookup-nil, insert-here, insert-none, cons-cases,
}
use gremlind.Net.{Addr, addr_eq, Prefix, contains}
use gremlind.Gre.Names.{valid_name, is_generated_name, if_name}
use gremlind.Gre.Naming.{if_name-valid}
use gremlind.Control.Identity.{valid_client_id}
use gremlind.Config.{
  Error, missing, invalid_id, invalid_iface, generated_iface, duplicate_iface, inner_outside,
  no_secret, short_psk, ServerConfig, parsed, min_secret_len, require, check_clients,
  check_interfaces, check_leases, check_rest, validate_server,
}

pub require-ok :
    (b : Bool) (e : Error) (k : Result Error (Unit {0}))
    → (require b e >> k) ≡ ok tt
    → (b ≡ true) × (k ≡ ok tt)
require-ok true e k h = (refl, h)
require-ok false e k h = cc

pub require-last : (b : Bool) (e : Error) → require b e ≡ ok tt → b ≡ true
require-last true e h = refl
require-last false e h = cc

-- What each pinned name satisfies, given the names before it.
pub record NamesOk (seen m : Map Bytes Bytes) : Type 0 where
  pub valid : (id name : Bytes) → lookup id m ≡ some name → valid_name name ≡ true
  pub not_generated : (id name : Bytes) → lookup id m ≡ some name → is_generated_name name ≡ false
  pub fresh : (id name : Bytes) → lookup id m ≡ some name → lookup name seen ≡ none
  pub distinct : (c d name : Bytes) → lookup c m ≡ some name → lookup d m ≡ some name → c ≡ d

module _ (id name : Bytes) (seen m : Map Bytes Bytes) (ih : NamesOk (insert name id seen) m) where
  not_later : (d : Bytes) → lookup d m ≡ some name → ⊥
  not_later d x =
      let both : none ≡ some id = sym (ih.fresh d name x) ∙ insert-here name id seen in cc

  cons-distinct :
      (c d n : Bytes)
      → lookup c ((id, name) ∷ m) ≡ some n
      → lookup d ((id, name) ∷ m) ≡ some n
      → c ≡ d
  cons-distinct c d n x y = elim (cons-cases id c name n m x) [
    | inl (own, same) ↦ elim (cons-cases id d name n m y) [
      | inl (own2, _) ↦ sym own ∙ own2
      | inr later ↦ absurd (not_later d (later ∙ ap some (sym same)))
    ]
    | inr later ↦ elim (cons-cases id d name n m y) [
      | inl (own2, same) ↦ absurd (not_later c (later ∙ ap some (sym same)))
      | inr later2 ↦ ih.distinct c d n later later2
    ]
  ]

  cons-NamesOk :
      valid_name name ≡ true
      → is_generated_name name ≡ false
      → lookup name seen ≡ none
      → NamesOk seen ((id, name) ∷ m)
  cons-NamesOk good free new = record {
    valid = λ c n x. elim (cons-cases id c name n m x) [
      | inl (_, same) ↦ subst (λ z. valid_name z ≡ true) same good
      | inr later ↦ ih.valid c n later
    ];
    not_generated = λ c n x. elim (cons-cases id c name n m x) [
      | inl (_, same) ↦ subst (λ z. is_generated_name z ≡ false) same free
      | inr later ↦ ih.not_generated c n later
    ];
    fresh = λ c n x. elim (cons-cases id c name n m x) [
      | inl (_, same) ↦ subst (λ z. lookup z seen ≡ none) same new
      | inr later ↦ insert-none name n id seen (ih.fresh c n later)
    ];
    distinct = cons-distinct;
  }

pub not-true : (b : Bool) → not b ≡ true → b ≡ false
not-true b h = ground (arith, h)

pub not_some : {A : Type 0} → (o : Option A) → is_some o ≡ false → o ≡ none
not_some none h = refl
not_some (some a) h = cc

check_interfaces-NamesOk :
    (seen m : Map Bytes Bytes) → check_interfaces seen m ≡ ok tt → NamesOk seen m
unfolding check_interfaces
check_interfaces-NamesOk seen [] h = record {
  valid = λ c n x. ground (arith, lookup-nil {V = Bytes} c, x);
  not_generated = λ c n x. ground (arith, lookup-nil {V = Bytes} c, x);
  fresh = λ c n x. ground (arith, lookup-nil {V = Bytes} c, x);
  distinct = λ c d n x y. ground (arith, lookup-nil {V = Bytes} c, x);
}
check_interfaces-NamesOk seen ((id, name) ∷ m) h =
    let (_, h1) = require-ok (valid_client_id id) invalid_id _ h in
    let (good, h2) = require-ok (valid_name name) invalid_iface _ h1 in
    let (free, h3) = require-ok (not (is_generated_name name)) generated_iface _ h2 in
    let (new, rest) = require-ok (not (is_some (lookup name seen))) duplicate_iface _ h3 in
    cons-NamesOk id name seen m (check_interfaces-NamesOk (insert name id seen) m rest) good
      (not-true (is_generated_name name) free)
      (not_some (lookup name seen) (not-true (is_some (lookup name seen)) new))

-- An accepted configuration has passed every check behind the parsed pool and server address.
pub >>-ok : (r k : Result Error (Unit {0})) → (r >> k) ≡ ok tt → (r ≡ ok tt) × (k ≡ ok tt)
>>-ok (ok tt) k h = (refl, h)
>>-ok (err e) k h = cc

pub record Passed (c : ServerConfig) (pool : Prefix) (inner : Addr) : Type 0 where
  pub inside : contains pool inner ≡ true
  pub names : check_interfaces [] c.interfaces ≡ ok tt
  pub leases : check_leases pool inner [] c.leases ≡ ok tt

check_rest-Passed :
    (c : ServerConfig) (pool : Prefix) (inner : Addr)
    → check_rest c pool inner ≡ ok tt
    → Passed c pool inner
unfolding check_rest
check_rest-Passed c pool inner h =
    let (a, h1) = require-ok (contains pool inner) inner_outside _ h in
    let (_, h2) = require-ok (not (length c.psk == 0 && length c.clients == 0)) no_secret _ h1 in
    let (_, h3) =
      require-ok (not (not (length c.psk == 0) && ltb (length c.psk) min_secret_len)) short_psk _
        h2 in
    let (_, h4) = >>-ok (check_clients c.clients) _ h3 in
    let (names, leases) = >>-ok (check_interfaces [] c.interfaces) _ h4 in
    record { inside = a; names = names; leases = leases }

pub validate_server-Passed :
    (c : ServerConfig) (pool : Prefix) (inner : Addr)
    → c.inner_pool ≡ parsed pool
    → c.server_inner ≡ parsed inner
    → validate_server c ≡ ok tt
    → Passed c pool inner
unfolding validate_server
validate_server-Passed c pool inner p i h =
    let (_, rest) = require-ok c.gre_local_set missing _ h in
    check_rest-Passed c pool inner (rw (p, i) at rest)

-- In a configuration that `ValidateServer` accepts, a pinned interface name is one that Linux takes,
-- it is no session's default name, and no other client has it.
pub validate_server-names :
    (c : ServerConfig) (pool : Prefix) (inner : Addr) (id d name : Bytes) (key : ℕ)
    → c.inner_pool ≡ parsed pool
    → c.server_inner ≡ parsed inner
    → validate_server c ≡ ok tt
    → lookup id c.interfaces ≡ some name
    → (valid_name name ≡ true)
      × (name ≢ if_name key)
      × ((lookup d c.interfaces ≡ some name) ↔ (d ≡ id))
validate_server-names c pool inner id d name key p i h pinned =
    let n =
      check_interfaces-NamesOk [] c.interfaces (validate_server-Passed c pool inner p i h).names in
    (
      n.valid id name pinned,
      λ same.
          let both : false ≡ true =
            sym (n.not_generated id name pinned)
            ∙ ap is_generated_name same
            ∙ (if_name-valid key).0 in
          cc,
      (
        λ other. n.distinct d id name other pinned,
        λ same. ap (λ x. lookup x c.interfaces) same ∙ pinned,
      ),
    )

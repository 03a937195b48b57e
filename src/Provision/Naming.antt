-- ===== src/Provision/Naming.antt =====
-- The names that the broker of internal/provisionrpc/rpc.go takes, by those of internal/gre/name.go.
use gremlind.Prelude.{
  ℕ, ◌≡◌, refl, sym, ap, subst, ◌∙◌, list_eqb_iff, true, false, Bool, ◌&&◌, ◌||◌, [], ◌∷◌, none,
  some, length, leb, ◌==◌, nat_eq, list_eq, arith, Bool-cases, Option-cases, ok, inl, inr,
}
use gremlind.Prelude.Bytes.{Bytes}
use gremlind.Prelude.Maps.{has, lookup}
use gremlind.Net.{Addr, Prefix}
use gremlind.Config.{ServerConfig, parsed, validate_server}
use gremlind.Config.Validated.{validate_server-names}
use gremlind.Session.{Manager, if_name_for}
use gremlind.Gre.Names.{
  valid_name, is_hex_digit, hex_digits, grem, cut_grem, generated_rest, is_generated_name, if_name,
}
use gremlind.Gre.Naming.{if_name-valid}
use gremlind.Provision.Checks.{
  lower_hex, lower_hex_rest, validate_grem_name, validate_name, Settings,
}

lower-hex : (s : Bytes) → lower_hex s ≡ hex_digits s
unfolding lower_hex hex_digits is_hex_digit
lower-hex [] = refl
lower-hex (r ∷ s) = ground (arith, lower-hex s)

rests :
    (name : Bytes)
    → leb (length name) 4 ≡ false
    → lower_hex_rest (cut_grem name) ≡ generated_rest (cut_grem name)
unfolding lower_hex_rest cut_grem
rests [] long = refl
rests (a ∷ []) long = refl
rests (a ∷ b ∷ []) long = refl
rests (a ∷ b ∷ c ∷ []) long = refl
rests (a ∷ b ∷ c ∷ d ∷ []) long = cc
rests (a ∷ b ∷ c ∷ d ∷ r ∷ s) long = ground (arith, lower-hex (r ∷ s))

short_rest : (name : Bytes) → leb (length name) 4 ≡ true → generated_rest (cut_grem name) ≡ false
unfolding cut_grem
short_rest [] short = refl
short_rest (a ∷ []) short = refl
short_rest (a ∷ b ∷ []) short = refl
short_rest (a ∷ b ∷ c ∷ []) short = refl
short_rest (a ∷ b ∷ c ∷ d ∷ []) short = ground arith
short_rest (a ∷ b ∷ c ∷ d ∷ r ∷ s) short = ground arith

fixed_name : Bytes → Bool
fixed_name name = name == grem [] || name == grem (b'0' ∷ [])

fixed_fits : (name : Bytes) → fixed_name name ≡ true → leb (length name) 15 ≡ true
unfolding fixed_name
fixed_fits name h = elim (Bool-cases (name == grem [])) [
  | inl plain ↦ let same = (list_eqb_iff name (grem [])).0 plain in rw same refl
  | inr other ↦ let same = (list_eqb_iff name (grem (b'0' ∷ []))).0 (ground arith) in rw same refl
]

-- The broker's own namespace is the generated one of internal/gre, cut to the names that Linux takes.
pub validate_grem_name-generated :
    (name : Bytes) → validate_grem_name name ≡ (is_generated_name name && leb (length name) 15)
unfolding validate_grem_name is_generated_name fixed_name
validate_grem_name-generated name = elim (Bool-cases (fixed_name name)) [
  | inl fixed ↦ rw fixed (sym (fixed_fits name fixed))
  | inr other ↦ rw other (elim (Bool-cases (leb (length name) 4)) [
    | inl short ↦ ground (arith, short, short_rest name short)
    | inr long ↦ ground (arith, long, rests name long)
  ])
]

generated_fits :
    (name : Bytes)
    → is_generated_name name ≡ true
    → valid_name name ≡ true
    → validate_grem_name name ≡ true
unfolding valid_name
generated_fits name generated valid =
    rw (validate_grem_name-generated name, generated) (ground arith)

generated_accepted :
    (s : Settings) (name : Bytes)
    → is_generated_name name ≡ true
    → valid_name name ≡ true
    → validate_name s name ≡ true
unfolding validate_name
generated_accepted s name generated valid = ground (arith, generated_fits name generated valid)

pinned_accepted :
    (s : Settings) (name : Bytes)
    → has name s.allow_set ≡ true
    → valid_name name ≡ true
    → validate_name s name ≡ true
unfolding validate_name
pinned_accepted s name allowed valid = ground arith

named_by_key :
    (m : Manager) (client : Bytes) (key : ℕ)
    → lookup client m.if_names ≡ none
    → if_name key ≡ if_name_for m client key
unfolding if_name_for
named_by_key m client key unpinned = rw (unpinned, if_name_for) refl

named_by_pin :
    (m : Manager) (client name : Bytes) (key : ℕ)
    → lookup client m.if_names ≡ some name
    → name ≡ if_name_for m client key
unfolding if_name_for
named_by_pin m client name key pinned = rw (pinned, if_name_for) refl

-- Where the control daemon runs with a configuration that `ValidateServer` accepts, and the broker
-- was started with the names that it pins, every interface name that the session manager gives to a
-- session, pinned or by its key, is one that the broker takes.
pub validate_name-if_name_for :
    (c : ServerConfig) (pool : Prefix) (inner : Addr) (m : Manager) (s : Settings) (client : Bytes)
    (key : ℕ)
    → c.inner_pool ≡ parsed pool
    → c.server_inner ≡ parsed inner
    → validate_server c ≡ ok tt
    → m.if_names ≡ c.interfaces
    → ((id name : Bytes) → lookup id c.interfaces ≡ some name → has name s.allow_set ≡ true)
    → validate_name s (if_name_for m client key) ≡ true
validate_name-if_name_for c pool inner m s client key p i valid pins allowed =
    elim (Option-cases (lookup client m.if_names)) [
      | inl unpinned ↦
          let (generated, named) = if_name-valid key in
          subst (λ n. validate_name s n ≡ true) (named_by_key m client key unpinned)
            (generated_accepted s (if_name key) generated named)
      | inr (name, found) ↦
          let pinned = ap (lookup client) (sym pins) ∙ found in
          let named =
            (validate_server-names c pool inner client client name key p i valid pinned).0 in
          subst (λ n. validate_name s n ≡ true) (named_by_pin m client name key found)
            (pinned_accepted s name (allowed client name pinned) named)
    ]

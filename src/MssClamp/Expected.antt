-- ===== src/MssClamp/Expected.antt =====
-- The iptables rules that a session is to have, written out: what `iptablesRule`, `ruleSpecs` and
-- `protocolSpecs` of internal/mssclamp/mssclamp.go come to.
use gremlind.Prelude.{
  ℕ, ◌≡◌, refl, sym, ap, ◌∙◌, subst, inl, inr, ◌||◌, List, [], ◌∷◌, ◌++◌, ltb, ◌==◌, nat_eq,
  list_eq, Bool-cases, if◌then◌else◌,
}
use gremlind.Prelude.Bytes.{Bytes}
use gremlind.Prelude.Int.{ℤ}
use gremlind.Prelude.Texts.{ascii, itoa}
use gremlind.Config.Clamp.{MssClamp}
use gremlind.MssClamp.Rules.{
  DirectionSpec, proto_v4, proto_v6, spec_in, spec_out, rule_specs, mss_of, marker, marker_prefix,
  iptables_rule,
}
use gremlind.MssClamp.Iptables.{Firewall}
use gremlind.MssClamp.Counting.{Slot, Lawful}
use gremlind.MssClamp.Clearing.{own_slots, slot_of}

-- The rule in a chain of a tool, for one direction and family: the SYN packets of the interface, with
-- a comment that tells whose rule it is, get their MSS set, or clamped to the path MTU for 0.
abbrev pub clamp_rule : Bytes → Bytes → Bytes → Bytes → Bytes → Bytes → ℕ → Slot
clamp_rule tool chain flag iface direction family mss =
    (tool
      ∷ chain
      ∷ flag
      ∷ iface
      ∷ ascii "-p"
      ∷ ascii "tcp"
      ∷ ascii "--tcp-flags"
      ∷ ascii "SYN,RST"
      ∷ ascii "SYN"
      ∷ ascii "-m"
      ∷ ascii "comment"
      ∷ ascii "--comment"
      ∷ ((ascii "gremlind:" ++ (iface ++ (ascii ":" ++ (direction ++ ascii ":")))) ++ family)
      ∷ ascii "-j"
      ∷ ascii "TCPMSS"
      ∷ [])
    ++ (if ltb 0 mss then ascii "--set-mss" ∷ itoa mss ∷ [] else ascii "--clamp-mss-to-pmtu" ∷ [])

-- One direction has a rule for either family.
abbrev pub both_families : MssClamp → Bytes → ℤ → Bytes → Bytes → List Slot
both_families cfg iface tunnel_mtu flag direction =
    clamp_rule (ascii "iptables") cfg.iptables_chain flag iface direction (ascii "v4")
      (mss_of proto_v4 cfg tunnel_mtu)
    ∷ clamp_rule (ascii "ip6tables") cfg.iptables_chain flag iface direction (ascii "v6")
        (mss_of proto_v6 cfg tunnel_mtu)
    ∷ []

-- The rules of the configured directions; an empty one is "out", an unknown one has no rules.
abbrev pub by_direction : Bytes → List Slot → List Slot → List Slot
by_direction direction outgoing incoming =
    if direction == ascii "both"
    then outgoing ++ incoming
    else if direction == ascii "in"
    then incoming
    else if direction == ascii "out" || direction == []
    then outgoing
    else []

abbrev pub expected_rules : MssClamp → Bytes → ℤ → List Slot
expected_rules cfg iface tunnel_mtu =
    by_direction cfg.direction (both_families cfg iface tunnel_mtu (ascii "-o") (ascii "out"))
      (both_families cfg iface tunnel_mtu (ascii "-i") (ascii "in"))

-- The directions, by their text.
data Directed (d : Bytes) : Type 0 where
  both :
      rule_specs d ≡ spec_out ∷ spec_in ∷ []
      → ((x y : List Slot) → by_direction d x y ≡ x ++ y)
      → Directed d
  inward : rule_specs d ≡ spec_in ∷ [] → ((x y : List Slot) → by_direction d x y ≡ y) → Directed d
  outward : rule_specs d ≡ spec_out ∷ [] → ((x y : List Slot) → by_direction d x y ≡ x) → Directed d
  nowhere : rule_specs d ≡ [] → ((x y : List Slot) → by_direction d x y ≡ []) → Directed d

directed : (d : Bytes) → Directed d
unfolding rule_specs
directed d = elim (Bool-cases (d == ascii "both")) [
  | inl e ↦ subst Directed (sym ((list_eq.decides d (ascii "both")).0 e)) (both refl (λ x y. refl))
  | inr not_both ↦ elim (Bool-cases (d == ascii "in")) [
    | inl e ↦
        subst Directed (sym ((list_eq.decides d (ascii "in")).0 e)) (inward refl (λ x y. refl))
    | inr not_in ↦ elim (Bool-cases (d == ascii "out")) [
      | inl e ↦
          subst Directed (sym ((list_eq.decides d (ascii "out")).0 e)) (outward refl (λ x y. refl))
      | inr not_out ↦ elim (Bool-cases (d == [])) [
        | inl e ↦ subst Directed (sym ((list_eq.decides d []).0 e)) (outward refl (λ x y. refl))
        | inr not_empty ↦
            nowhere (rw (not_empty, not_out, not_in, not_both, rule_specs) refl)
              (λ x y. rw (not_both, not_in, not_out, not_empty) refl)
      ]
    ]
  ]
]

module _ {W : Type 0} (run : Firewall W) (count : W → Slot → ℕ) (lawful : Lawful run count)
    (cfg : MssClamp) (iface : Bytes) (tunnel_mtu : ℤ) where
  abbrev slots : List DirectionSpec → List Slot
  slots = own_slots run count lawful cfg iface tunnel_mtu

  abbrev outgoing : List Slot
  outgoing = both_families cfg iface tunnel_mtu (ascii "-o") (ascii "out")

  abbrev incoming : List Slot
  incoming = both_families cfg iface tunnel_mtu (ascii "-i") (ascii "in")

  slots-out : slots (spec_out ∷ []) ≡ outgoing
  unfolding slot_of iptables_rule marker marker_prefix
  slots-out = refl

  slots-in : slots (spec_in ∷ []) ≡ incoming
  unfolding slot_of iptables_rule marker marker_prefix
  slots-in = refl

  slots-both : slots (spec_out ∷ spec_in ∷ []) ≡ outgoing ++ incoming
  unfolding slot_of iptables_rule marker marker_prefix
  slots-both = refl

  pub own_slots-expected :
      own_slots run count lawful cfg iface tunnel_mtu (rule_specs cfg.direction)
      ≡ expected_rules cfg iface tunnel_mtu
  own_slots-expected = elim (directed cfg.direction) [
    | both specs rules ↦ ap slots specs ∙ slots-both ∙ sym (rules outgoing incoming)
    | inward specs rules ↦ ap slots specs ∙ slots-in ∙ sym (rules outgoing incoming)
    | outward specs rules ↦ ap slots specs ∙ slots-out ∙ sym (rules outgoing incoming)
    | nowhere specs rules ↦ ap slots specs ∙ sym (rules outgoing incoming)
  ]

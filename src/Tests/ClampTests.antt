-- ===== src/Tests/ClampTests.antt =====
-- internal/mssclamp/mssclamp.go on a firewall that is a list of rules.
use gremlind.Prelude.{
  ◌≤◌, ℕ, ◌+◌, ◌-◌, ◌≡◌, refl, Bool, true, false, List, [], ◌∷◌, ◌++◌, Option, none, some, ok, ltb,
  ◌==◌, nat_eq, list_eq, list_eqb_iff, arith, if◌then◌else◌,
}
use gremlind.Prelude.Bytes.{Bytes}
use gremlind.Prelude.Int.{pos, ◌-ℤ◌}
use gremlind.Prelude.Maps.{is_some}
use gremlind.Prelude.Texts.{ascii}
use gremlind.Gre.Names.{valid_name, name_chars, is_alphanumeric}
use gremlind.Config.Clamp.{MssClamp, with_defaults, validate_mss_clamp}
use gremlind.MssClamp.Rules.{
  ProtocolSpec, protocol_specs, proto_v4, spec_out, mss_of, iptables_rule, marker, marker_prefix,
}
use gremlind.MssClamp.Choosing.{Chosen, protocol_specs-Chosen}
use gremlind.MssClamp.Markers.{marker_prefix-own}
use gremlind.MssClamp.Nftables.{Shell, run_of}
use gremlind.MssClamp.Counting.{Slot, slot, Lawful, listed, Below}
use gremlind.MssClamp.Expected.{expected_rules}
use gremlind.MssClamp.Whole.{apply, present}
use gremlind.MssClamp.Installed.{apply-returns, apply-once}

abbrev Rules : Type 0
Rules = List Slot

abbrev occurrences : Rules → Slot → ℕ
occurrences [] s = 0
occurrences (t ∷ ts) s = if s == t then occurrences ts s + 1 else occurrences ts s

abbrev take_one : Slot → Rules → Rules
take_one s [] = []
take_one s (t ∷ ts) = if s == t then ts else t ∷ take_one s ts

abbrev answer : Bool → Option Bytes
answer true = some []
answer false = none

abbrev iptables : Shell Rules
iptables tool (t ∷ table ∷ op ∷ chain ∷ rule) w =
    if op == ascii "-C"
    then (answer (ltb 0 (occurrences w (tool ∷ chain ∷ rule))), w)
    else if op == ascii "-A"
    then (some [], (tool ∷ chain ∷ rule) ∷ w)
    else if op == ascii "-D"
    then (answer (ltb 0 (occurrences w (tool ∷ chain ∷ rule))), take_one (tool ∷ chain ∷ rule) w)
    else (none, w)
iptables tool args w = (none, w)

answer_told : (b : Bool) → is_some (answer b) ≡ b
answer_told true = refl
answer_told false = refl

one_taken :
    (s t : Slot) (w : Rules)
    → occurrences (take_one s w) t ≡ (if t == s then occurrences w t - 1 else occurrences w t)
one_taken s t [] = ground arith
one_taken s t (u ∷ w) =
    ground (arith, one_taken s t w, list_eqb_iff s u, list_eqb_iff t u, list_eqb_iff t s)

iptables-Lawful : Lawful (run_of iptables) occurrences
iptables-Lawful = record {
  check_ok = λ tool chain rule w. answer_told _;
  check_keeps = λ tool chain rule w s. refl;
  appended = λ tool chain rule w s h. refl;
  delete_ok = λ tool chain rule w. answer_told _;
  deleted = λ tool chain rule w s. one_taken (tool ∷ chain ∷ rule) s w;
}

abbrev clamp : MssClamp
clamp = record {
  enabled = true;
  backend = ascii "iptables";
  direction = ascii "both";
  mss_mode = ascii "tunnel_mtu";
  mss = pos 0;
  mss4 = pos 0;
  mss6 = pos 1300;
  nft_family = [];
  nft_table = [];
  nft_chain = [];
  nft_manage_table = false;
  iptables_chain = ascii "FORWARD";
  monitor = false;
}

abbrev foreign : Slot
foreign = ascii "iptables" ∷ ascii "FORWARD" ∷ ascii "-j" ∷ ascii "ACCEPT" ∷ []

below : Below occurrences 5 (foreign ∷ foreign ∷ [])
below s = ground arith

clamp_on : clamp.enabled ≡ true
clamp_on = refl

clamp_by_iptables : (with_defaults clamp).backend == ascii "iptables" ≡ true
unfolding with_defaults
clamp_by_iptables = refl

abbrev iface : Bytes
iface = ascii "grem2a"

apply-returns_example :
    (b : Bool) × (u : Rules) × (apply iptables 5 iface (pos 1476) clamp (foreign ∷ foreign ∷ [])
      ≡ some (b, u))
apply-returns_example =
    apply-returns iptables occurrences iptables-Lawful 5 iface (pos 1476) clamp clamp_on
      clamp_by_iptables (foreign ∷ foreign ∷ []) below

abbrev installed : Option (Bool × Rules)
installed = apply iptables 5 iface (pos 1476) clamp (foreign ∷ foreign ∷ [])

abbrev rules_of : Option (Bool × Rules) → Rules
rules_of none = []
rules_of (some (b, w)) = w

applied : installed ≡ some (true, rules_of installed)
unfolding apply
applied = refl

apply-once_example :
    ((s : Slot)
      → occurrences (rules_of installed) s ≡ (
          if listed s (expected_rules (with_defaults clamp) iface (pos 1476))
          then 1
          else occurrences (foreign ∷ foreign ∷ []) s))
    × (x : Rules) × (present iptables 5 iface (pos 1476) clamp (rules_of installed)
        ≡ some (true, x))
apply-once_example =
    apply-once iptables occurrences iptables-Lawful 5 iface (pos 1476) clamp clamp_on
      clamp_by_iptables (foreign ∷ foreign ∷ []) below (rules_of installed) applied

clamp_valid : validate_mss_clamp (with_defaults clamp) ≡ ok tt
unfolding validate_mss_clamp with_defaults
clamp_valid = refl

protocol_specs-Chosen_example :
    let m = with_defaults clamp in
    (v4 : ProtocolSpec) × (v6 : ProtocolSpec) × (protocol_specs ≡ v4 ∷ v6 ∷ [])
    × (v4.iptables ≡ ascii "iptables")
    × (v6.iptables ≡ ascii "ip6tables")
    × Chosen m m.mss4 40 1476 (mss_of v4 m (pos 1476))
    × Chosen m m.mss6 60 1476 (mss_of v6 m (pos 1476))
    × (mss_of v4 m (pos 1476) ≤ 65535)
    × (mss_of v6 m (pos 1476) ≤ 65535)
protocol_specs-Chosen_example =
    protocol_specs-Chosen (with_defaults clamp) 1476 clamp_valid (omega arith)

-- A rule of the interface for another tunnel MTU is not taken away: its MSS is another, so that it is
-- another rule.
abbrev stale : Slot
stale =
    slot (ascii "iptables") (ascii "FORWARD")
      (iptables_rule (with_defaults clamp) iface spec_out proto_v4 (pos 1476))

stale_rule_stays :
    occurrences (rules_of (apply iptables 5 iface (pos 1400) clamp (rules_of installed))) stale ≡ 1
unfolding apply iptables_rule marker mss_of with_defaults ◌-ℤ◌
stale_rule_stays = refl

iface_valid : valid_name iface ≡ true
unfolding valid_name name_chars is_alphanumeric
iface_valid = refl

own_marker :
    marker_prefix iface (ascii "out") ++ ascii "v4" ≡ marker iface (ascii "out") (ascii "v4")
unfolding marker marker_prefix
own_marker = refl

marker_prefix-own_example : (iface ≡ iface) × (ascii "out" ≡ ascii "out")
marker_prefix-own_example =
    marker_prefix-own iface iface (ascii "out") (ascii "out") (ascii "v4") (ascii "v4") iface_valid
      iface_valid (omega arith) (omega arith) own_marker

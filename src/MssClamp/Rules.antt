-- ===== src/MssClamp/Rules.antt =====
-- `ruleSpecs`, `protocolSpecs`, `iptablesRule` and the markers of internal/mssclamp/mssclamp.go.
use gremlind.Prelude.{ℕ, ◌&&◌, ◌||◌, List, [], ◌∷◌, ◌++◌, ◌==◌, nat_eq, list_eq, ltb, if◌then◌else◌}
use gremlind.Prelude.Bytes.{Bytes}
use gremlind.Prelude.Int.{ℤ, pos, ltb_ℤ, ◌-ℤ◌, pos_part}
use gremlind.Prelude.Texts.{ascii, itoa}
use gremlind.Config.Clamp.{MssClamp}

-- `directionSpec`
pub record DirectionSpec : Type 0 where
  pub name : Bytes
  pub nft : Bytes
  pub ipt : Bytes

abbrev pub spec_out : DirectionSpec
spec_out = record { name = ascii "out"; nft = ascii "oifname"; ipt = ascii "-o" }

abbrev pub spec_in : DirectionSpec
spec_in = record { name = ascii "in"; nft = ascii "iifname"; ipt = ascii "-i" }

-- `ruleSpecs`
unfoldable pub rule_specs : Bytes → List DirectionSpec
rule_specs direction =
    if direction == [] || direction == ascii "out"
    then spec_out ∷ []
    else if direction == ascii "in"
    then spec_in ∷ []
    else if direction == ascii "both"
    then spec_out ∷ spec_in ∷ []
    else []

-- `protocolSpec`. `overhead` is the part of the MTU that the headers of the family take, and
-- `own_mss` the field that overrides the others.
pub record ProtocolSpec : Type 0 where
  pub name : Bytes
  pub iptables : Bytes
  pub nft_match : List Bytes
  pub nft_pmtu : List Bytes
  pub overhead : ℕ
  pub own_mss : MssClamp → ℤ

abbrev pub proto_v4 : ProtocolSpec
proto_v4 = record {
  name = ascii "v4";
  iptables = ascii "iptables";
  nft_match = ascii "ip" ∷ ascii "protocol" ∷ ascii "tcp" ∷ [];
  nft_pmtu = ascii "rt" ∷ ascii "mtu" ∷ [];
  overhead = 40;
  own_mss = λ cfg. cfg.mss4;
}

abbrev pub proto_v6 : ProtocolSpec
proto_v6 = record {
  name = ascii "v6";
  iptables = ascii "ip6tables";
  nft_match = ascii "ip6" ∷ ascii "nexthdr" ∷ ascii "tcp" ∷ [];
  nft_pmtu = ascii "rt6" ∷ ascii "mtu" ∷ [];
  overhead = 60;
  own_mss = λ cfg. cfg.mss6;
}

-- `protocolSpecs`
abbrev pub protocol_specs : List ProtocolSpec
protocol_specs = proto_v4 ∷ proto_v6 ∷ []

-- The function `mss` of a protocol: 0 is the path MTU's. What it returns is positive or 0.
unfoldable pub mss_of : ProtocolSpec → MssClamp → ℤ → ℕ
mss_of proto cfg tunnel_mtu =
    if ltb_ℤ (pos 0) (proto.own_mss cfg)
    then pos_part (proto.own_mss cfg)
    else if ltb_ℤ (pos 0) cfg.mss
    then pos_part cfg.mss
    else if cfg.mss_mode == ascii "tunnel_mtu" && ltb_ℤ (pos proto.overhead) tunnel_mtu
    then pos_part (tunnel_mtu -ℤ pos proto.overhead)
    else 0

-- `markerPrefix` and `marker`
unfoldable pub marker_prefix : Bytes → Bytes → Bytes
marker_prefix iface direction =
    ascii "gremlind:" ++ (iface ++ (ascii ":" ++ (direction ++ ascii ":")))

unfoldable pub marker : Bytes → Bytes → Bytes → Bytes
unfolding marker_prefix
marker iface direction proto = marker_prefix iface direction ++ proto

abbrev pub target_of : ℕ → List Bytes
unfolding itoa
target_of mss =
    if ltb 0 mss then ascii "--set-mss" ∷ itoa mss ∷ [] else ascii "--clamp-mss-to-pmtu" ∷ []

-- `iptablesRule`
unfoldable pub iptables_rule : MssClamp → Bytes → DirectionSpec → ProtocolSpec → ℤ → List Bytes
unfolding marker mss_of target_of
iptables_rule cfg iface spec proto tunnel_mtu =
    (spec.ipt
      ∷ iface
      ∷ ascii "-p"
      ∷ ascii "tcp"
      ∷ ascii "--tcp-flags"
      ∷ ascii "SYN,RST"
      ∷ ascii "SYN"
      ∷ ascii "-m"
      ∷ ascii "comment"
      ∷ ascii "--comment"
      ∷ marker iface spec.name proto.name
      ∷ ascii "-j"
      ∷ ascii "TCPMSS"
      ∷ [])
    ++ target_of (mss_of proto cfg tunnel_mtu)

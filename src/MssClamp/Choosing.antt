-- ===== src/MssClamp/Choosing.antt =====
-- Which MSS internal/mssclamp/mssclamp.go chooses, by the headers of each IP version.
use gremlind.Prelude.{
  ℕ, ◌+◌, ◌≤◌, ◌≡◌, refl, ◌⊎◌, inl, inr, Bool, true, false, ◌&&◌, ok, ◌==◌, [], ◌∷◌, if◌then◌else◌,
  nat_eq, list_eq, arith, Bool-cases,
}
use gremlind.Prelude.Int.{ℤ, pos, negsuc, ◌-ℤ◌, ◌≤ℤ◌, ltb_ℤ, pos_part}
use gremlind.Prelude.Texts.{ascii}
use gremlind.Config.Clamp.{MssClamp, validate_mss_clamp, unknown_mode}
use gremlind.MssClamp.Rules.{ProtocolSpec, proto_v4, proto_v6, protocol_specs, mss_of}
use gremlind.MssClamp.Bounds.{validate_mss_clamp-Validated, mss_of-Fitting}

-- Which MSS the configuration asks for, for a protocol with its own value and so many bytes of IP and
-- TCP headers: its own value, the shared one, what the tunnel's MTU leaves, or 0 for the path MTU.
pub data Chosen (m : MssClamp) (own : ℤ) (header_bytes tunnel_mtu mss : ℕ) : Type 0 where
  own_value : pos 1 ≤ℤ own → own ≡ pos mss → Chosen m own header_bytes tunnel_mtu mss
  shared_value :
      own ≤ℤ pos 0 → pos 1 ≤ℤ m.mss → m.mss ≡ pos mss → Chosen m own header_bytes tunnel_mtu mss
  by_tunnel :
      own ≤ℤ pos 0
      → m.mss ≤ℤ pos 0
      → m.mss_mode ≡ ascii "tunnel_mtu"
      → 1 ≤ mss
      → mss + header_bytes ≡ tunnel_mtu
      → Chosen m own header_bytes tunnel_mtu mss
  by_path :
      own ≤ℤ pos 0
      → m.mss ≤ℤ pos 0
      → (m.mss_mode ≡ ascii "pmtu") ⊎ (tunnel_mtu ≤ header_bytes)
      → mss ≡ 0
      → Chosen m own header_bytes tunnel_mtu mss

positive_is : (x : ℤ) → ltb_ℤ (pos 0) x ≡ true → (pos 1 ≤ℤ x) × (x ≡ pos (pos_part x))
positive_is (pos n) h = (ground (arith, h), refl)
positive_is (negsuc n) h = absurd (ground (arith, h))

-- A mode that is known and not the one is the other.
other_mode :
    (m : MssClamp)
    → unknown_mode m ≡ false
    → m.mss_mode == ascii "tunnel_mtu" ≡ false
    → m.mss_mode ≡ ascii "pmtu"
other_mode m known other =
    (list_eq.decides m.mss_mode (ascii "pmtu")).0 (ground (arith, known, other))

unset_by :
    (proto : ProtocolSpec) (m : MssClamp) (tunnel_mtu : ℕ)
    → unknown_mode m ≡ false
    → proto.own_mss m ≤ℤ pos 0
    → m.mss ≤ℤ pos 0
    → (fill : Bool)
    → (m.mss_mode == ascii "tunnel_mtu" && ltb_ℤ (pos proto.overhead) (pos tunnel_mtu)) ≡ fill
    → Chosen m
        (proto.own_mss m)
        proto.overhead
        tunnel_mtu
        (if fill then pos_part (pos tunnel_mtu -ℤ pos proto.overhead) else 0)
unfolding ◌-ℤ◌
unset_by proto m tunnel_mtu known own all true h =
    by_tunnel own all ((list_eq.decides m.mss_mode (ascii "tunnel_mtu")).0 (ground (arith, h)))
      (ground (arith, h)) (ground (arith, h))
unset_by proto m tunnel_mtu known own all false h =
    by_path own all
      (elim (Bool-cases (m.mss_mode == ascii "tunnel_mtu")) [
        | inl tunnel ↦ inr (ground (arith, h, tunnel))
        | inr other ↦ inl (other_mode m known other)
      ])
      refl

mss_of-Chosen :
    (proto : ProtocolSpec) (m : MssClamp) (tunnel_mtu : ℕ)
    → unknown_mode m ≡ false
    → Chosen m (proto.own_mss m) proto.overhead tunnel_mtu (mss_of proto m (pos tunnel_mtu))
unfolding mss_of
mss_of-Chosen proto m tunnel_mtu known = elim (Bool-cases (ltb_ℤ (pos 0) (proto.own_mss m))) [
  | inl fixed ↦
      let (least, is) = positive_is (proto.own_mss m) fixed in
      rw (fixed, mss_of) (own_value least is)
  | inr free ↦ elim (Bool-cases (ltb_ℤ (pos 0) m.mss)) [
    | inl fixed ↦
        let (least, is) = positive_is m.mss fixed in
        rw (free, fixed, mss_of) (shared_value (ground (arith, free)) least is)
    | inr unset ↦
        rw (free, unset, mss_of)
          (unset_by proto m tunnel_mtu known (ground (arith, free)) (ground (arith, unset)) _ refl)
  ]
]

-- In a configuration that `validateMSSClamp` accepts, the MSS of IPv4 is `mss4` where that is set,
-- else `mss` where that is set, else in the mode `tunnel_mtu` what the tunnel's MTU leaves of its 40
-- bytes of headers, else 0, which stands for the path MTU; so is that of IPv6, with `mss6` and 60
-- bytes. The first is installed with iptables, the second with ip6tables. A tunnel MTU that the headers fill stands for the path MTU too. No MSS exceeds 65535 where
-- the tunnel MTU does not.
pub protocol_specs-Chosen :
    (m : MssClamp) (tunnel_mtu : ℕ)
    → validate_mss_clamp m ≡ ok tt
    → tunnel_mtu ≤ 65535
    → (v4 : ProtocolSpec) × (v6 : ProtocolSpec) × (protocol_specs ≡ v4 ∷ v6 ∷ [])
      × (v4.iptables ≡ ascii "iptables")
      × (v6.iptables ≡ ascii "ip6tables")
      × Chosen m m.mss4 40 tunnel_mtu (mss_of v4 m (pos tunnel_mtu))
      × Chosen m m.mss6 60 tunnel_mtu (mss_of v6 m (pos tunnel_mtu))
      × (mss_of v4 m (pos tunnel_mtu) ≤ 65535)
      × (mss_of v6 m (pos tunnel_mtu) ≤ 65535)
protocol_specs-Chosen m tunnel_mtu h mtu =
    let known = (validate_mss_clamp-Validated m h).mode_known in
    let fits = mss_of-Fitting m tunnel_mtu h mtu in
    (
      proto_v4,
      proto_v6,
      refl,
      refl,
      refl,
      mss_of-Chosen proto_v4 m tunnel_mtu known,
      mss_of-Chosen proto_v6 m tunnel_mtu known,
      fits.0.0,
      fits.1.0.0,
    )

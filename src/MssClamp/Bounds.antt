-- ===== src/MssClamp/Bounds.antt =====
-- The MSS of internal/mssclamp/mssclamp.go for a configuration that internal/config/config.go accepts.
use gremlind.Prelude.{
  ℕ, ◌+◌, ◌≤◌, ◌≡◌, refl, ◌>>◌, ◌⊎◌, inl, inr, Bool, true, false, ◌&&◌, not, Result, ok, All, ◌==◌,
  nat_eq, list_eq, arith, Bool-cases,
}
use gremlind.Prelude.Int.{ℤ, pos, negsuc, ◌-ℤ◌, ltb_ℤ, pos_part}
use gremlind.Prelude.Texts.{ascii}
use gremlind.Config.Clamp.{
  MssClamp, validate_mss_clamp, out_of_range, reject_if, ClampError, bad_backend, bad_direction,
  bad_mode, bad_mss, unknown_backend, unknown_direction, unknown_mode, bad_values,
}
use gremlind.MssClamp.Rules.{ProtocolSpec, proto_v4, proto_v6, protocol_specs, mss_of}

passed :
    (test : Bool) (e : ClampError) (others : Result ClampError (Unit {0}))
    → (reject_if test e >> others) ≡ ok tt
    → (test ≡ false) × (others ≡ ok tt)
passed true e others h = cc
passed false e others h = (refl, h)

-- What `validateMSSClamp` has seen to.
pub record Validated (m : MssClamp) : Type 0 where
  pub backend_known : unknown_backend m ≡ false
  pub direction_known : unknown_direction m ≡ false
  pub mode_known : unknown_mode m ≡ false
  pub in_range : bad_values m ≡ false

pub validate_mss_clamp-Validated : (m : MssClamp) → validate_mss_clamp m ≡ ok tt → Validated m
unfolding validate_mss_clamp
validate_mss_clamp-Validated m h =
    let (backend, h1) = passed (unknown_backend m) bad_backend _ h in
    let (direction, h2) = passed (unknown_direction m) bad_direction _ h1 in
    let (mode, h3) = passed (unknown_mode m) bad_mode _ h2 in
    let (range, h4) = passed (bad_values m) bad_mss _ h3 in
    record {
      backend_known = backend;
      direction_known = direction;
      mode_known = mode;
      in_range = range;
    }

positive_range : (x : ℤ) → out_of_range x ≡ false → pos_part x ≤ 65535
positive_range (pos n) h = ground (arith, h)
positive_range (negsuc n) h = omega arith

-- Neither of the two fixed values is set.
abbrev pub unfixed : ProtocolSpec → MssClamp → Bool
unfixed proto m = not (ltb_ℤ (pos 0) (proto.own_mss m)) && not (ltb_ℤ (pos 0) m.mss)

mss_of-fits :
    (proto : ProtocolSpec) (m : MssClamp) (tunnel_mtu : ℕ)
    → out_of_range (proto.own_mss m) ≡ false
    → out_of_range m.mss ≡ false
    → tunnel_mtu ≤ 65535
    → (mss_of proto m (pos tunnel_mtu) ≤ 65535)
      × ((unfixed proto m ≡ false)
          ⊎ ((mss_of proto m (pos tunnel_mtu) ≡ 0)
              ⊎ (mss_of proto m (pos tunnel_mtu) + proto.overhead ≡ tunnel_mtu)))
unfolding mss_of ◌-ℤ◌
mss_of-fits proto m tunnel_mtu own all mtu =
    let first = positive_range (proto.own_mss m) own in
    let second = positive_range m.mss all in
    elim (Bool-cases (ltb_ℤ (pos 0) (proto.own_mss m))) [
      | inl fixed ↦ rw fixed (first, inl refl)
      | inr free ↦ rw free (elim (Bool-cases (ltb_ℤ (pos 0) m.mss)) [
        | inl fixed ↦ rw fixed (second, inl refl)
        | inr unset ↦
            rw unset
              (elim (Bool-cases
                (m.mss_mode == ascii "tunnel_mtu" && ltb_ℤ (pos proto.overhead) (pos tunnel_mtu))) [
                  | inl by_mtu ↦
                      rw by_mtu (ground (arith, by_mtu, mtu), inr (inr (ground (arith, by_mtu))))
                  | inr by_path ↦ rw by_path (omega arith, inr (inl refl))
                ])
      ])
    ]

-- The MSS of one protocol fits 16 bits; where no fixed value is set it leaves the path MTU or, with
-- the headers of the family, fills the tunnel's MTU.
abbrev pub Fitting : MssClamp → ℕ → ProtocolSpec → Type 0
Fitting m tunnel_mtu proto =
    (mss_of proto m (pos tunnel_mtu) ≤ 65535)
    × ((unfixed proto m ≡ false)
        ⊎ ((mss_of proto m (pos tunnel_mtu) ≡ 0)
            ⊎ (mss_of proto m (pos tunnel_mtu) + proto.overhead ≡ tunnel_mtu)))

-- In a configuration that `validateMSSClamp` accepts, and for a tunnel MTU of 16 bits, the MSS of
-- either protocol fits 16 bits. Where no fixed value is set for the protocol, it is 0, which stands
-- for the path MTU, or it is the tunnel MTU less the headers of the family.
pub mss_of-Fitting :
    (m : MssClamp) (tunnel_mtu : ℕ)
    → validate_mss_clamp m ≡ ok tt
    → tunnel_mtu ≤ 65535
    → All (Fitting m tunnel_mtu) protocol_specs
mss_of-Fitting m tunnel_mtu h mtu =
    let range = (validate_mss_clamp-Validated m h).in_range in
    let all : out_of_range m.mss ≡ false = ground (arith, range) in
    let v4 : out_of_range m.mss4 ≡ false = ground (arith, range) in
    let v6 : out_of_range m.mss6 ≡ false = ground (arith, range) in
    (
      mss_of-fits proto_v4 m tunnel_mtu v4 all mtu,
      (mss_of-fits proto_v6 m tunnel_mtu v6 all mtu, tt),
    )

-- ===== src/MssClamp/Applying.antt =====
-- `Apply` and `Present` of internal/mssclamp/mssclamp.go with iptables.
use gremlind.Prelude.{
  ℕ, ◌+◌, ◌<◌, ◌≡◌, refl, sym, ap, subst, ◌∙◌, inl, inr, Bool, true, false, List, [], ◌∷◌, ◌++◌,
  some, ltb, ◌==◌, nat_eq, list_eq, list_eqb_iff, arith, Bool-cases, if◌then◌else◌,
}
use gremlind.Prelude.Bytes.{Bytes}
use gremlind.Prelude.Int.{ℤ}
use gremlind.Prelude.Texts.{ascii}
use gremlind.Config.Clamp.{MssClamp}
use gremlind.MssClamp.Rules.{DirectionSpec, ProtocolSpec, protocol_specs, iptables_rule}
use gremlind.MssClamp.Iptables.{
  Firewall, command, apply_one, apply_protos, apply_specs, present_protos, present_specs,
  remove_specs,
}
use gremlind.MssClamp.Counting.{Slot, Lawful, listed, listed-append, Below}
use gremlind.MssClamp.Clearing.{slot_of, proto_slots, own_slots, Cleared, remove_specs-Clears}

module _ {W : Type 0} (run : Firewall W) (count : W → Slot → ℕ) (lawful : Lawful run count)
    (cfg : MssClamp) (iface : Bytes) (tunnel_mtu : ℤ) where
  abbrev own : DirectionSpec → ProtocolSpec → Slot
  own spec proto = slot_of run count lawful cfg iface tunnel_mtu spec proto

  -- The listed rules are there, once where they were not, and every other one as often as before.
  abbrev pub Added : List Slot → W → W → Type 0
  Added slots w v =
      (s : Slot)
      → count v s
        ≡ (if listed s slots then (if ltb 0 (count w s) then count w s else 1) else count w s)

  module _ (spec : DirectionSpec) (proto : ProtocolSpec) where
    abbrev checking : W → Bool × W
    checking w =
        run proto.iptables
          (command (ascii "-C") cfg.iptables_chain (iptables_rule cfg iface spec proto tunnel_mtu))
          w

    abbrev adding : W → Bool × W
    adding w =
        run proto.iptables
          (command (ascii "-A") cfg.iptables_chain (iptables_rule cfg iface spec proto tunnel_mtu))
          w

    tells : (w : W) → (checking w).0 ≡ ltb 0 (count w (own spec proto))
    unfolding slot_of
    tells w =
        lawful.check_ok proto.iptables cfg.iptables_chain
          (iptables_rule cfg iface spec proto tunnel_mtu) w

    keeps : (w : W) (s : Slot) → count (checking w).1 s ≡ count w s
    keeps w s =
        lawful.check_keeps proto.iptables cfg.iptables_chain
          (iptables_rule cfg iface spec proto tunnel_mtu) w s

    adds :
        (w : W) (s : Slot)
        → (adding w).0 ≡ true
        → count (adding w).1 s ≡ (if s == own spec proto then count w s + 1 else count w s)
    unfolding slot_of
    adds w s e =
        lawful.appended proto.iptables cfg.iptables_chain
          (iptables_rule cfg iface spec proto tunnel_mtu) w s e

    found :
        (w : W)
        → (checking w).0 ≡ true
        → apply_one run cfg iface tunnel_mtu spec proto w ≡ (true, (checking w).1)
    unfolding apply_one
    found w e = rw (e, apply_one) refl

    missing :
        (w : W)
        → (checking w).0 ≡ false
        → apply_one run cfg iface tunnel_mtu spec proto w ≡ adding (checking w).1
    unfolding apply_one
    missing w e = rw (e, apply_one) refl

    apply_one-Added :
        (w : W)
        → (apply_one run cfg iface tunnel_mtu spec proto w).0 ≡ true
        → Added (own spec proto ∷ []) w (apply_one run cfg iface tunnel_mtu spec proto w).1
    apply_one-Added w h = elim (Bool-cases (checking w).0) [
      | inl there ↦
          subst (λ r. Added (own spec proto ∷ []) w r.1) (sym (found w there))
            (λ s. ground (arith, keeps w s, tells w, there, list_eqb_iff s (own spec proto)))
      | inr absent ↦
          let added = sym (ap (λ r. r.0) (missing w absent)) ∙ h in
          subst (λ r. Added (own spec proto ∷ []) w r.1) (sym (missing w absent))
            (λ s. ground (
              arith,
              adds (checking w).1 s added,
              keeps w s,
              tells w,
              absent,
              list_eqb_iff s (own spec proto),
            ))
    ]

  Added-append :
      (xs ys : List Slot) (w v u : W) → Added xs w v → Added ys v u → Added (xs ++ ys) w u
  Added-append xs ys w v u first second s = ground (arith, first s, second s, listed-append s xs ys)

  apply_protos-Added :
      (spec : DirectionSpec) (protos : List ProtocolSpec) (w : W)
      → (apply_protos run cfg iface tunnel_mtu spec protos w).0 ≡ true
      → Added
          (proto_slots run count lawful cfg iface tunnel_mtu spec protos)
          w
          (apply_protos run cfg iface tunnel_mtu spec protos w).1
  unfolding apply_protos
  apply_protos-Added spec [] w h = λ s. refl
  apply_protos-Added spec (proto ∷ protos) w h =
      let first = apply_one run cfg iface tunnel_mtu spec proto w in
      elim (Bool-cases first.0) [
        | inr failed ↦ let bad : false ≡ true = rw (failed, apply_protos) at h in cc
        | inl applied ↦
            let rest = rw (applied, apply_protos) at h in
            rw (applied, apply_protos)
              (Added-append (own spec proto ∷ [])
                (proto_slots run count lawful cfg iface tunnel_mtu spec protos) w first.1 _
                (apply_one-Added spec proto w applied)
                (apply_protos-Added spec protos first.1 rest))
      ]

  apply_specs-Added :
      (specs : List DirectionSpec) (w : W)
      → (apply_specs run cfg iface tunnel_mtu specs w).0 ≡ true
      → Added
          (own_slots run count lawful cfg iface tunnel_mtu specs)
          w
          (apply_specs run cfg iface tunnel_mtu specs w).1
  unfolding apply_specs
  apply_specs-Added [] w h = λ s. refl
  apply_specs-Added (spec ∷ specs) w h =
      let first = apply_protos run cfg iface tunnel_mtu spec protocol_specs w in
      elim (Bool-cases first.0) [
        | inr failed ↦ let bad : false ≡ true = rw (failed, apply_specs) at h in cc
        | inl applied ↦
            let rest = rw (applied, apply_specs) at h in
            rw (applied, apply_specs)
              (Added-append (proto_slots run count lawful cfg iface tunnel_mtu spec protocol_specs)
                (own_slots run count lawful cfg iface tunnel_mtu specs) w first.1 _
                (apply_protos-Added spec protocol_specs w applied)
                (apply_specs-Added specs first.1 rest))
      ]

  -- All listed rules are there.
  abbrev Holds : List Slot → W → Type 0
  Holds slots w = (s : Slot) → listed s slots ≡ true → 0 < count w s

  abbrev present : List DirectionSpec → W → Bool × W
  present specs w = present_specs run cfg iface tunnel_mtu specs w

  present_protos-Holds :
      (spec : DirectionSpec) (protos : List ProtocolSpec) (w : W)
      → Holds (proto_slots run count lawful cfg iface tunnel_mtu spec protos) w
      → ((present_protos run cfg iface tunnel_mtu spec protos w).0 ≡ true)
        × ((s : Slot)
            → count (present_protos run cfg iface tunnel_mtu spec protos w).1 s ≡ count w s)
  unfolding present_protos
  present_protos-Holds spec [] w h = (refl, λ s. refl)
  present_protos-Holds spec (proto ∷ protos) w h =
      let mine = own spec proto in
      let self = (list_eqb_iff mine mine).1 refl in
      let there : (checking spec proto w).0 ≡ true =
        ground (arith, tells spec proto w, h mine, self) in
      let now = (checking spec proto w).1 in
      let (yes_all, kept) =
        present_protos-Holds spec protos now
          (λ s l. ground (arith, keeps spec proto w s, h s, l)) in
      rw (there, present_protos) (yes_all, λ s. kept s ∙ keeps spec proto w s)

  present_specs-Holds :
      (specs : List DirectionSpec) (w : W)
      → Holds (own_slots run count lawful cfg iface tunnel_mtu specs) w
      → (present_specs run cfg iface tunnel_mtu specs w).0 ≡ true
  unfolding present_specs
  present_specs-Holds [] w h = refl
  present_specs-Holds (spec ∷ specs) w h =
      let slots = proto_slots run count lawful cfg iface tunnel_mtu spec protocol_specs in
      let rest = own_slots run count lawful cfg iface tunnel_mtu specs in
      let (there, kept) =
        present_protos-Holds spec protocol_specs w
          (λ s l. h s (ground (arith, listed-append s slots rest, l))) in
      let now = (present_protos run cfg iface tunnel_mtu spec protocol_specs w).1 in
      rw (there, present_specs)
        (present_specs-Holds specs now
          (λ s l. ground (arith, kept s, h s (ground (arith, listed-append s slots rest, l)))))

  -- Where iptables does what its manual says, and no rule is there as often as the removal may take
  -- rounds: an `Apply` whose commands succeed leaves every rule of the session's directions exactly
  -- once and every other rule as often as it was, and `Present` then finds all of them.
  pub apply_specs-once :
      (specs : List DirectionSpec) (fuel : ℕ) (w v : W)
      → Below count fuel w
      → remove_specs run cfg iface tunnel_mtu fuel specs w ≡ some v
      → (apply_specs run cfg iface tunnel_mtu specs v).0 ≡ true
      → let u = (apply_specs run cfg iface tunnel_mtu specs v).1 in
        ((s : Slot)
          → count u s ≡ (
              if listed s (own_slots run count lawful cfg iface tunnel_mtu specs)
              then 1
              else count w s))
        × ((present_specs run cfg iface tunnel_mtu specs u).0 ≡ true)
  apply_specs-once specs fuel w v below removed applied =
      let (x, e, cleared) =
        remove_specs-Clears run count lawful cfg iface tunnel_mtu specs fuel w below in
      let same : x ≡ v = cc in
      let gone =
        subst
          (Cleared run count lawful cfg iface tunnel_mtu
            (own_slots run count lawful cfg iface tunnel_mtu specs) w)
          same cleared in
      let added = apply_specs-Added specs v applied in
      let u = (apply_specs run cfg iface tunnel_mtu specs v).1 in
      let once : (s : Slot)
          → count u s ≡ (
              if listed s (own_slots run count lawful cfg iface tunnel_mtu specs)
              then 1
              else count w s) =
        λ s. ground (arith, added s, gone s) in
      (
        once,
        present_specs-Holds specs (apply_specs run cfg iface tunnel_mtu specs v).1
            (λ s l. ground (arith, once s, l)),
      )

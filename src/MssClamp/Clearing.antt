-- ===== src/MssClamp/Clearing.antt =====
-- `Remove` of internal/mssclamp/mssclamp.go with iptables: its loops end, and no own rule is left.
use gremlind.Prelude.{
  ℕ, zero, suc, ◌-◌, ◌<◌, ◌≡◌, refl, ◌∙◌, inl, inr, Bool, true, false, List, [], ◌∷◌, ◌++◌, some,
  ltb, ◌==◌, nat_eq, list_eq, arith, Bool-cases, list_eqb_iff, if◌then◌else◌,
}
use gremlind.Prelude.Bytes.{Bytes}
use gremlind.Prelude.Int.{ℤ}
use gremlind.Prelude.Texts.{ascii}
use gremlind.Config.Clamp.{MssClamp}
use gremlind.MssClamp.Rules.{DirectionSpec, ProtocolSpec, protocol_specs, iptables_rule}
use gremlind.MssClamp.Iptables.{Firewall, command, delete_all, remove_protos, remove_specs}
use gremlind.MssClamp.Counting.{Slot, slot, Lawful, listed, listed-append, Below}

module _ {W : Type 0} (run : Firewall W) (count : W → Slot → ℕ) (lawful : Lawful run count)
    (cfg : MssClamp) (iface : Bytes) (tunnel_mtu : ℤ) where
  -- The rules of a session's directions.
  unfoldable pub slot_of : DirectionSpec → ProtocolSpec → Slot
  slot_of spec proto =
      slot proto.iptables cfg.iptables_chain (iptables_rule cfg iface spec proto tunnel_mtu)

  abbrev pub proto_slots : DirectionSpec → List ProtocolSpec → List Slot
  proto_slots spec [] = []
  proto_slots spec (proto ∷ protos) = slot_of spec proto ∷ proto_slots spec protos

  abbrev pub own_slots : List DirectionSpec → List Slot
  own_slots [] = []
  own_slots (spec ∷ specs) = proto_slots spec protocol_specs ++ own_slots specs

  -- The listed rules are gone, every other one is as often there as before.
  abbrev pub Cleared : List Slot → W → W → Type 0
  Cleared slots w v = (s : Slot) → count v s ≡ (if listed s slots then 0 else count w s)

  module _ (spec : DirectionSpec) (proto : ProtocolSpec) where
    abbrev own : Slot
    own = slot_of spec proto

    abbrev deleting : W → Bool × W
    deleting w =
        run proto.iptables
          (command (ascii "-D") cfg.iptables_chain (iptables_rule cfg iface spec proto tunnel_mtu))
          w

    tells : (w : W) → (deleting w).0 ≡ ltb 0 (count w own)
    unfolding slot_of
    tells w =
        lawful.delete_ok proto.iptables cfg.iptables_chain
          (iptables_rule cfg iface spec proto tunnel_mtu) w

    takes :
        (w : W) (s : Slot)
        → count (deleting w).1 s ≡ (if s == own then count w s - 1 else count w s)
    unfolding slot_of
    takes w s =
        lawful.deleted proto.iptables cfg.iptables_chain
          (iptables_rule cfg iface spec proto tunnel_mtu) w s

    stop :
        (fuel : ℕ) (w : W)
        → (deleting w).0 ≡ false
        → delete_all run cfg iface tunnel_mtu (suc fuel) spec proto w ≡ some (deleting w).1
    unfolding delete_all
    stop fuel w e = rw (e, delete_all) refl

    go_on :
        (fuel : ℕ) (w : W)
        → (deleting w).0 ≡ true
        → delete_all run cfg iface tunnel_mtu (suc fuel) spec proto w
          ≡ delete_all run cfg iface tunnel_mtu fuel spec proto (deleting w).1
    unfolding delete_all
    go_on fuel w e = rw (e, delete_all) refl

    self : own == own ≡ true
    self = (list_eqb_iff own own).1 refl

    delete_all-Clears :
        (fuel : ℕ) (w : W)
        → count w own < fuel
        → (v : W) × (delete_all run cfg iface tunnel_mtu fuel spec proto w ≡ some v)
          × Cleared (own ∷ []) w v
    delete_all-Clears zero w bound = elim bound [ ]
    delete_all-Clears (suc fuel) w bound = elim (Bool-cases (deleting w).0) [
      | inr gone ↦ (
        (deleting w).1,
        stop fuel w gone,
        λ s. ground (arith, takes w s, tells w, gone, list_eqb_iff s own),
      )
      | inl there ↦
          let less : count (deleting w).1 own < fuel =
            ground (arith, takes w own, self, tells w, there, bound) in
          let (v, e, cleared) = delete_all-Clears fuel (deleting w).1 less in
          (v, go_on fuel w there ∙ e, λ s. ground (arith, cleared s, takes w s))
    ]

  Cleared-Below :
      (slots : List Slot) (fuel : ℕ) (w v : W)
      → Cleared slots w v
      → Below count fuel w
      → Below count fuel v
  Cleared-Below slots fuel w v cleared below s = ground (arith, cleared s, below s)

  Cleared-append :
      (xs ys : List Slot) (w v u : W) → Cleared xs w v → Cleared ys v u → Cleared (xs ++ ys) w u
  Cleared-append xs ys w v u first second s =
      ground (arith, first s, second s, listed-append s xs ys)

  remove_protos-Clears :
      (spec : DirectionSpec) (protos : List ProtocolSpec) (fuel : ℕ) (w : W)
      → Below count fuel w
      → (v : W) × (remove_protos run cfg iface tunnel_mtu fuel spec protos w ≡ some v)
        × Cleared (proto_slots spec protos) w v
  unfolding remove_protos
  remove_protos-Clears spec [] fuel w below = (w, refl, λ s. refl)
  remove_protos-Clears spec (proto ∷ protos) fuel w below =
      let (v, e, cleared) = delete_all-Clears spec proto fuel w (below (slot_of spec proto)) in
      let (u, f, others) =
        remove_protos-Clears spec protos fuel v
          (Cleared-Below (slot_of spec proto ∷ []) fuel w v cleared below) in
      (
        u,
        rw (e, remove_protos) f,
        Cleared-append (slot_of spec proto ∷ []) (proto_slots spec protos) w v u cleared others,
      )

  -- Where iptables does what its manual says, the endless loops of `Remove` end: with more rounds
  -- than any rule is there, no rule of the session's directions is left, and every other rule is
  -- there as often as before.
  pub remove_specs-Clears :
      (specs : List DirectionSpec) (fuel : ℕ) (w : W)
      → Below count fuel w
      → (v : W) × (remove_specs run cfg iface tunnel_mtu fuel specs w ≡ some v)
        × Cleared (own_slots specs) w v
  unfolding remove_specs
  remove_specs-Clears [] fuel w below = (w, refl, λ s. refl)
  remove_specs-Clears (spec ∷ specs) fuel w below =
      let slots = proto_slots spec protocol_specs in
      let (v, e, cleared) = remove_protos-Clears spec protocol_specs fuel w below in
      let (u, f, others) =
        remove_specs-Clears specs fuel v (Cleared-Below slots fuel w v cleared below) in
      (u, rw (e, remove_specs) f, Cleared-append slots (own_slots specs) w v u cleared others)

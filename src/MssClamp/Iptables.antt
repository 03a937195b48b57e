-- ===== src/MssClamp/Iptables.antt =====
-- `applyIPTables`, `removeIPTables` and `iptablesRulesPresent` of internal/mssclamp/mssclamp.go over
-- the firewall, which a command changes and which answers whether it succeeded.
use gremlind.Prelude.{
  ℕ, zero, suc, Bool, true, false, List, [], ◌∷◌, ◌++◌, Option, none, some, if◌then◌else◌,
}
use gremlind.Prelude.Bytes.{Bytes}
use gremlind.Prelude.Int.{ℤ}
use gremlind.Prelude.Texts.{ascii}
use gremlind.Config.Clamp.{MssClamp}
use gremlind.MssClamp.Rules.{DirectionSpec, ProtocolSpec, protocol_specs, iptables_rule}

-- `run`: the program, its arguments, and whether it succeeds.
abbrev pub Firewall : Type 0 → Type 0
Firewall W = Bytes → List Bytes → W → Bool × W

-- The arguments of one of the commands -C, -A and -D on a rule of a chain.
abbrev pub command : Bytes → Bytes → List Bytes → List Bytes
command op chain rule = (ascii "-t" ∷ ascii "mangle" ∷ op ∷ chain ∷ []) ++ rule

module _ {W : Type 0} (run : Firewall W) (cfg : MssClamp) (iface : Bytes) (tunnel_mtu : ℤ) where
  -- One round of `applyIPTables`: the rule is appended if it is not there.
  unfoldable pub apply_one : DirectionSpec → ProtocolSpec → W → Bool × W
  unfolding iptables_rule
  apply_one spec proto w =
      let (there, w) =
        run proto.iptables
          (command (ascii "-C") cfg.iptables_chain (iptables_rule cfg iface spec proto tunnel_mtu))
          w in
      if there
      then (true, w)
      else run proto.iptables
          (command (ascii "-A") cfg.iptables_chain (iptables_rule cfg iface spec proto tunnel_mtu))
          w

  unfoldable pub apply_protos : DirectionSpec → List ProtocolSpec → W → Bool × W
  unfolding apply_one
  apply_protos spec [] w = (true, w)
  apply_protos spec (proto ∷ protos) w =
      let (applied, now) = apply_one spec proto w in
      let rest = apply_protos spec protos now in if applied then rest else (false, now)

  -- `for { if run(-D) != nil { break } }`, on fuel: `none` where it ran out.
  unfoldable pub delete_all : ℕ → DirectionSpec → ProtocolSpec → W → Option W
  unfolding iptables_rule
  delete_all zero spec proto w = none
  delete_all (suc fuel) spec proto w =
      let (deleted, now) =
        run proto.iptables
          (command (ascii "-D") cfg.iptables_chain (iptables_rule cfg iface spec proto tunnel_mtu))
          w in
      let rest = delete_all fuel spec proto now in if deleted then rest else some now

  -- `removeIPTables`
  unfoldable pub remove_protos : ℕ → DirectionSpec → List ProtocolSpec → W → Option W
  unfolding delete_all
  remove_protos fuel spec [] w = some w
  remove_protos fuel spec (proto ∷ protos) w = elim (delete_all fuel spec proto w) [
    | none ↦ none
    | some now ↦ remove_protos fuel spec protos now
  ]

  -- `iptablesRulesPresent`
  unfoldable pub present_protos : DirectionSpec → List ProtocolSpec → W → Bool × W
  unfolding iptables_rule
  present_protos spec [] w = (true, w)
  present_protos spec (proto ∷ protos) w =
      let (there, now) =
        run proto.iptables
          (command (ascii "-C") cfg.iptables_chain (iptables_rule cfg iface spec proto tunnel_mtu))
          w in
      let rest = present_protos spec protos now in if there then rest else (false, now)

  -- The loops of `Remove`, `Apply` and `Present` over the directions.
  unfoldable pub remove_specs : ℕ → List DirectionSpec → W → Option W
  unfolding remove_protos
  remove_specs fuel [] w = some w
  remove_specs fuel (spec ∷ specs) w = elim (remove_protos fuel spec protocol_specs w) [
    | none ↦ none
    | some now ↦ remove_specs fuel specs now
  ]

  unfoldable pub apply_specs : List DirectionSpec → W → Bool × W
  unfolding apply_protos
  apply_specs [] w = (true, w)
  apply_specs (spec ∷ specs) w =
      let (applied, now) = apply_protos spec protocol_specs w in
      let rest = apply_specs specs now in if applied then rest else (false, now)

  unfoldable pub present_specs : List DirectionSpec → W → Bool × W
  unfolding present_protos
  present_specs [] w = (true, w)
  present_specs (spec ∷ specs) w =
      let (there, now) = present_protos spec protocol_specs w in
      let rest = present_specs specs now in if there then rest else (false, now)

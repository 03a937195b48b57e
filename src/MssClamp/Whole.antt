-- ===== src/MssClamp/Whole.antt =====
-- `Apply`, `Remove`, `Present` and `MonitorLoop` of internal/mssclamp/mssclamp.go. `none` is where
-- the endless loop of a removal outlasts the fuel; false is an error.
use gremlind.Prelude.{
  ℕ, Bool, true, false, ◌||◌, not, List, [], ◌∷◌, Option, none, some, ◌==◌, nat_eq, list_eq,
  if◌then◌else◌,
}
use gremlind.Prelude.Bytes.{Bytes}
use gremlind.Prelude.Int.{ℤ}
use gremlind.Prelude.Texts.{ascii}
use gremlind.Config.Clamp.{MssClamp, with_defaults}
use gremlind.MssClamp.Rules.{DirectionSpec, protocol_specs, rule_specs}
use gremlind.MssClamp.Iptables.{apply_protos, remove_protos, present_protos}
use gremlind.MssClamp.Nftables.{Shell, run_of, apply_nft, remove_nft, nft_rules_present}

module _ {W : Type 0} where
  -- `for _, spec := range specs { if err := step(spec); err != nil { return err } }`
  unfoldable pub each_spec :
      (DirectionSpec → W → Option (Bool × W)) → List DirectionSpec → W → Option (Bool × W)
  each_spec step [] w = some (true, w)
  each_spec step (spec ∷ specs) w = elim (step spec w) [
    | none ↦ none
    | some (done, now) ↦ elim done [ true ↦ each_spec step specs now | false ↦ some (false, now) ]
  ]

  abbrev pub succeeding : Option W → Option (Bool × W)
  succeeding none = none
  succeeding (some w) = some (true, w)

module _ {W : Type 0} (output : Shell W) (fuel : ℕ) (iface : Bytes) (tunnel_mtu : ℤ) where
  -- The switches on the backend.
  unfoldable pub remove_spec : MssClamp → DirectionSpec → W → Option (Bool × W)
  unfolding remove_nft remove_protos
  remove_spec cfg spec w =
      if cfg.backend == ascii "nftables"
      then some (remove_nft output cfg iface spec w)
      else if cfg.backend == ascii "iptables"
      then succeeding
          (remove_protos (run_of output) cfg iface tunnel_mtu fuel spec protocol_specs w)
      else some (false, w)

  unfoldable pub apply_spec : MssClamp → DirectionSpec → W → Option (Bool × W)
  unfolding apply_nft apply_protos
  apply_spec cfg spec w =
      if cfg.backend == ascii "nftables"
      then some (apply_nft output cfg iface spec tunnel_mtu w)
      else if cfg.backend == ascii "iptables"
      then some (apply_protos (run_of output) cfg iface tunnel_mtu spec protocol_specs w)
      else some (false, w)

  unfoldable pub present_spec : MssClamp → DirectionSpec → W → Option (Bool × W)
  unfolding nft_rules_present present_protos
  present_spec cfg spec w =
      if cfg.backend == ascii "nftables"
      then some (nft_rules_present output cfg iface spec w)
      else if cfg.backend == ascii "iptables"
      then some (present_protos (run_of output) cfg iface tunnel_mtu spec protocol_specs w)
      else some (false, w)

  -- `Remove`
  unfoldable pub remove : MssClamp → W → Option (Bool × W)
  unfolding each_spec remove_spec rule_specs with_defaults
  remove cfg w =
      if not cfg.enabled
      then some (true, w)
      else each_spec (remove_spec (with_defaults cfg)) (rule_specs (with_defaults cfg).direction) w

  -- `Apply` behind the removal, whose error is only logged.
  unfoldable pub install : MssClamp → List DirectionSpec → Option (Bool × W) → Option (Bool × W)
  unfolding each_spec apply_spec
  install cfg specs none = none
  install cfg specs (some (removed, w)) = each_spec (apply_spec cfg) specs w

  unfoldable pub apply_specs_of : MssClamp → List DirectionSpec → W → Option (Bool × W)
  unfolding remove install
  apply_specs_of cfg [] w = some (false, w)
  apply_specs_of cfg (spec ∷ specs) w = install cfg (spec ∷ specs) (remove cfg w)

  -- `Apply`
  unfoldable pub apply : MssClamp → W → Option (Bool × W)
  unfolding apply_specs_of rule_specs with_defaults
  apply cfg w =
      if not cfg.enabled
      then some (true, w)
      else apply_specs_of (with_defaults cfg) (rule_specs (with_defaults cfg).direction) w

  -- `Present`: false is an error too.
  unfoldable pub present : MssClamp → W → Option (Bool × W)
  unfolding each_spec present_spec rule_specs with_defaults
  present cfg w =
      if not cfg.enabled
      then some (true, w)
      else each_spec (present_spec (with_defaults cfg)) (rule_specs (with_defaults cfg).direction) w

  -- One event of `MonitorLoop`: the ruleset has changed, and missing rules are installed again. An
  -- error of the repair is logged.
  unfoldable pub monitor_event : MssClamp → W → Option W
  unfolding present apply
  monitor_event cfg w = elim (present cfg w) [
    | none ↦ none
    | some (there, now) ↦ elim there [
      | true ↦ some now
      | false ↦ elim (apply cfg now) [ none ↦ none | some (_, repaired) ↦ some repaired ]
    ]
  ]

  -- `MonitorLoop` over what the ruleset becomes between its events.
  unfoldable pub monitor_loop : MssClamp → List (W → W) → W → Option W
  unfolding monitor_event with_defaults
  monitor_loop cfg [] w = some w
  monitor_loop cfg (change ∷ changes) w = elim (monitor_event (with_defaults cfg) (change w)) [
    | none ↦ none
    | some now ↦ monitor_loop cfg changes now
  ]

  unfoldable pub monitor : MssClamp → List (W → W) → W → Option W
  unfolding monitor_loop
  monitor cfg changes w =
      if not cfg.enabled || (not cfg.monitor || not (cfg.backend == ascii "nftables"))
      then some w
      else monitor_loop cfg changes w

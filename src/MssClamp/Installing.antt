-- ===== src/MssClamp/Installing.antt =====
-- `Apply` of internal/mssclamp/mssclamp.go, whole, where the backend is iptables.
use gremlind.Prelude.{
  ℕ, ◌≡◌, refl, ap, ◌∙◌, inl, inr, Bool, true, false, List, [], ◌∷◌, Option, none, some, ◌==◌,
  nat_eq, list_eq, list_eqb_iff, Bool-cases, Option-cases,
}
use gremlind.Prelude.Bytes.{Bytes}
use gremlind.Prelude.Int.{ℤ}
use gremlind.Prelude.Texts.{ascii}
use gremlind.Config.Clamp.{MssClamp, with_defaults, or_text}
use gremlind.MssClamp.Rules.{DirectionSpec, protocol_specs}
use gremlind.MssClamp.Iptables.{
  apply_protos, apply_specs, remove_protos, remove_specs, present_protos, present_specs,
}
use gremlind.MssClamp.Nftables.{Shell, run_of}
use gremlind.MssClamp.Whole.{each_spec, succeeding, remove_spec, apply_spec, present_spec}

or_text_idem :
    (text default : Bytes) → or_text (or_text text default) default ≡ or_text text default
or_text_idem text default = elim (Bool-cases (text == [])) [
  | inl empty ↦
      rw empty (elim (Bool-cases (default == [])) [ inl e ↦ rw e refl | inr n ↦ rw n refl ])
  | inr given ↦ rw (given, given) refl
]

-- The defaults are defaults of themselves.
pub with_defaults_idem : (m : MssClamp) → with_defaults (with_defaults m) ≡ with_defaults m
unfolding with_defaults
with_defaults_idem m = simp or_text_idem

module _ {W : Type 0} (step : DirectionSpec → W → Option (Bool × W)) (spec : DirectionSpec)
    (specs : List DirectionSpec) (w : W) where
  each_none : step spec w ≡ none → each_spec step (spec ∷ specs) w ≡ none
  unfolding each_spec
  each_none e = rw (e, each_spec) refl

  each_done :
      (r : Bool × W)
      → step spec w ≡ some r
      → r.0 ≡ true
      → each_spec step (spec ∷ specs) w ≡ each_spec step specs r.1
  unfolding each_spec
  each_done r e done = rw (e, each_spec, done) refl

  each_failed :
      (r : Bool × W)
      → step spec w ≡ some r
      → r.0 ≡ false
      → each_spec step (spec ∷ specs) w ≡ some (false, r.1)
  unfolding each_spec
  each_failed r e failed = rw (e, each_spec, failed) refl

module _ {W : Type 0} (output : Shell W) (fuel : ℕ) (iface : Bytes) (tunnel_mtu : ℤ)
    (cfg : MssClamp) (by_iptables : cfg.backend == ascii "iptables" ≡ true) where
  not_nft : cfg.backend == ascii "nftables" ≡ false
  not_nft = let same = (list_eqb_iff cfg.backend (ascii "iptables")).0 by_iptables in rw same refl

  remove_step :
      (spec : DirectionSpec) (w : W)
      → remove_spec output fuel iface tunnel_mtu cfg spec w
        ≡ succeeding (remove_protos (run_of output) cfg iface tunnel_mtu fuel spec protocol_specs w)
  unfolding remove_spec
  remove_step spec w = rw (not_nft, by_iptables, remove_spec) refl

  apply_step :
      (spec : DirectionSpec) (w : W)
      → apply_spec output fuel iface tunnel_mtu cfg spec w
        ≡ some (apply_protos (run_of output) cfg iface tunnel_mtu spec protocol_specs w)
  unfolding apply_spec
  apply_step spec w = rw (not_nft, by_iptables, apply_spec) refl

  present_step :
      (spec : DirectionSpec) (w : W)
      → present_spec output fuel iface tunnel_mtu cfg spec w
        ≡ some (present_protos (run_of output) cfg iface tunnel_mtu spec protocol_specs w)
  unfolding present_spec
  present_step spec w = rw (not_nft, by_iptables, present_spec) refl

  pub each_remove :
      (specs : List DirectionSpec) (w : W)
      → each_spec (remove_spec output fuel iface tunnel_mtu cfg) specs w
        ≡ succeeding (remove_specs (run_of output) cfg iface tunnel_mtu fuel specs w)
  unfolding each_spec remove_specs
  each_remove [] w = refl
  each_remove (spec ∷ specs) w =
      let step = remove_spec output fuel iface tunnel_mtu cfg in
      elim (Option-cases
        (remove_protos (run_of output) cfg iface tunnel_mtu fuel spec protocol_specs w)) [
          | inl out ↦
              each_none step spec specs w (remove_step spec w ∙ ap succeeding out)
              ∙ (rw (out, remove_specs) refl)
          | inr (v, e) ↦
              each_done step spec specs w (true, v) (remove_step spec w ∙ ap succeeding e) refl
              ∙ each_remove specs v
              ∙ (rw (e, remove_specs) refl)
        ]

  pub each_apply :
      (specs : List DirectionSpec) (w : W)
      → each_spec (apply_spec output fuel iface tunnel_mtu cfg) specs w
        ≡ some (apply_specs (run_of output) cfg iface tunnel_mtu specs w)
  unfolding each_spec apply_specs
  each_apply [] w = refl
  each_apply (spec ∷ specs) w =
      let step = apply_spec output fuel iface tunnel_mtu cfg in
      let r = apply_protos (run_of output) cfg iface tunnel_mtu spec protocol_specs w in
      elim (Bool-cases r.0) [
        | inl done ↦
            each_done step spec specs w r (apply_step spec w) done
            ∙ each_apply specs r.1
            ∙ (rw (done, apply_specs) refl)
        | inr failed ↦
            each_failed step spec specs w r (apply_step spec w) failed
            ∙ (rw (failed, apply_specs) refl)
      ]

  pub each_present :
      (specs : List DirectionSpec) (w : W)
      → each_spec (present_spec output fuel iface tunnel_mtu cfg) specs w
        ≡ some (present_specs (run_of output) cfg iface tunnel_mtu specs w)
  unfolding each_spec present_specs
  each_present [] w = refl
  each_present (spec ∷ specs) w =
      let step = present_spec output fuel iface tunnel_mtu cfg in
      let r = present_protos (run_of output) cfg iface tunnel_mtu spec protocol_specs w in
      elim (Bool-cases r.0) [
        | inl done ↦
            each_done step spec specs w r (present_step spec w) done
            ∙ each_present specs r.1
            ∙ (rw (done, present_specs) refl)
        | inr failed ↦
            each_failed step spec specs w r (present_step spec w) failed
            ∙ (rw (failed, present_specs) refl)
      ]

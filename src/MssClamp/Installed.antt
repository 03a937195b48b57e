-- ===== src/MssClamp/Installed.antt =====
-- What `Apply` of internal/mssclamp/mssclamp.go promises, whole, where the backend is iptables.
use gremlind.Prelude.{
  ℕ, ◌≡◌, refl, sym, ap, subst, ◌∙◌, Bool, true, false, List, [], ◌∷◌, some, some_pair, ◌==◌,
  nat_eq, list_eq, if◌then◌else◌,
}
use gremlind.Prelude.Bytes.{Bytes}
use gremlind.Prelude.Int.{ℤ}
use gremlind.Prelude.Texts.{ascii}
use gremlind.Config.Clamp.{MssClamp, with_defaults}
use gremlind.MssClamp.Rules.{DirectionSpec, rule_specs}
use gremlind.MssClamp.Iptables.{apply_specs, remove_specs, present_specs}
use gremlind.MssClamp.Nftables.{Shell, run_of}
use gremlind.MssClamp.Counting.{Slot, Lawful, listed, Below}
use gremlind.MssClamp.Clearing.{own_slots, remove_specs-Clears}
use gremlind.MssClamp.Expected.{expected_rules, own_slots-expected}
use gremlind.MssClamp.Applying.{apply_specs-once}
use gremlind.MssClamp.Whole.{
  each_spec, succeeding, remove_spec, remove, install, apply_specs_of, apply, present,
}
use gremlind.MssClamp.Installing.{with_defaults_idem, each_remove, each_apply, each_present}

module _ {W : Type 0} (output : Shell W) (count : W → Slot → ℕ)
    (lawful : Lawful (run_of output) count) (fuel : ℕ) (iface : Bytes) (tunnel_mtu : ℤ)
    (m : MssClamp) (on : m.enabled ≡ true)
    (by_iptables : (with_defaults m).backend == ascii "iptables" ≡ true) where
  abbrev full : MssClamp
  full = with_defaults m

  abbrev specs_of : List DirectionSpec
  specs_of = rule_specs full.direction

  full_on : full.enabled ≡ true
  unfolding with_defaults
  full_on = on

  removal :
      (w : W)
      → remove output fuel iface tunnel_mtu full w
        ≡ succeeding (remove_specs (run_of output) full iface tunnel_mtu fuel specs_of w)
  unfolding remove
  removal w =
      let direct : remove output fuel iface tunnel_mtu full w
          ≡ each_spec (remove_spec output fuel iface tunnel_mtu (with_defaults full))
              (rule_specs (with_defaults full).direction) w =
        rw (full_on, remove) refl in
      direct
      ∙ ap (λ c. each_spec (remove_spec output fuel iface tunnel_mtu c) (rule_specs c.direction) w)
          (with_defaults_idem m)
      ∙ each_remove output fuel iface tunnel_mtu full by_iptables specs_of w

  -- The switch of `Apply`.
  entered :
      (w : W)
      → apply output fuel iface tunnel_mtu m w
        ≡ apply_specs_of output fuel iface tunnel_mtu full specs_of w
  unfolding apply
  entered w = rw (on, apply) refl

  nothing_to_do : (w : W) → specs_of ≡ [] → apply output fuel iface tunnel_mtu m w ≡ some (false, w)
  unfolding apply_specs_of
  nothing_to_do w e = entered w ∙ ap (λ l. apply_specs_of output fuel iface tunnel_mtu full l w) e

  applied :
      (w v : W) (s : DirectionSpec) (ss : List DirectionSpec)
      → specs_of ≡ s ∷ ss
      → remove_specs (run_of output) full iface tunnel_mtu fuel specs_of w ≡ some v
      → apply output fuel iface tunnel_mtu m w
        ≡ some (apply_specs (run_of output) full iface tunnel_mtu specs_of v)
  unfolding apply_specs_of install
  applied w v s ss e removed =
      entered w
      ∙ ap (λ l. apply_specs_of output fuel iface tunnel_mtu full l w) e
      ∙ ap (install output fuel iface tunnel_mtu full (s ∷ ss)) (removal w ∙ ap succeeding removed)
      ∙ each_apply output fuel iface tunnel_mtu full by_iptables (s ∷ ss) v
      ∙ ap (λ l. some (apply_specs (run_of output) full iface tunnel_mtu l v)) (sym e)

  presented :
      (w : W)
      → present output fuel iface tunnel_mtu m w
        ≡ some (present_specs (run_of output) full iface tunnel_mtu specs_of w)
  unfolding present
  presented w =
      (rw (on, present) refl)
      ∙ each_present output fuel iface tunnel_mtu full by_iptables specs_of w

  abbrev own : List Slot
  own = own_slots (run_of output) count lawful full iface tunnel_mtu specs_of

  module _ (w : W) (below : Below count fuel w) where
    -- Where iptables does what its manual says, and no rule is there as often as the removal may
    -- take rounds, `Apply` with that backend comes to an end.
    pub apply-returns :
        (b : Bool) × (u : W) × (apply output fuel iface tunnel_mtu m w ≡ some (b, u))
    apply-returns = by_specs specs_of refl
      where
        by_specs :
            (l : List DirectionSpec)
            → specs_of ≡ l
            → (b : Bool) × (u : W) × (apply output fuel iface tunnel_mtu m w ≡ some (b, u))
        by_specs [] e = (false, w, nothing_to_do w e)
        by_specs (s ∷ ss) e =
            let (v, removed, _) =
              remove_specs-Clears (run_of output) count lawful full iface tunnel_mtu specs_of fuel w
                below in
            let r = apply_specs (run_of output) full iface tunnel_mtu specs_of v in
            (r.0, r.1, applied w v s ss e removed)

    -- The same, of the rules as the code composes them.
    applied-once :
        (u : W)
        → apply output fuel iface tunnel_mtu m w ≡ some (true, u)
        → ((s : Slot) → count u s ≡ (if listed s own then 1 else count w s))
          × (x : W) × (present output fuel iface tunnel_mtu m u ≡ some (true, x))
    applied-once u h = by_specs specs_of refl
      where
        by_specs :
            (l : List DirectionSpec)
            → specs_of ≡ l
            → ((s : Slot) → count u s ≡ (if listed s own then 1 else count w s))
              × (x : W) × (present output fuel iface tunnel_mtu m u ≡ some (true, x))
        by_specs [] e = let bad : false ≡ true = (some_pair (sym (nothing_to_do w e) ∙ h)).0 in cc
        by_specs (s ∷ ss) e =
            let (v, removed, _) =
              remove_specs-Clears (run_of output) count lawful full iface tunnel_mtu specs_of fuel w
                below in
            let r = apply_specs (run_of output) full iface tunnel_mtu specs_of v in
            let same : some r ≡ some (true, u) = sym (applied w v s ss e removed) ∙ h in
            let (success, there) : (r.0 ≡ true) × (r.1 ≡ u) = some_pair same in
            let (once, found) =
              apply_specs-once (run_of output) count lawful full iface tunnel_mtu specs_of fuel w v
                below removed success in
            let seen = present_specs (run_of output) full iface tunnel_mtu specs_of u in
            let all : seen.0 ≡ true =
              subst (λ t. (present_specs (run_of output) full iface tunnel_mtu specs_of t).0 ≡ true)
                there found in
            (
              λ slot.
                  subst (λ t. count t slot ≡ (if listed slot own then 1 else count w slot)) there
                    (once slot),
              seen.1,
              presented u ∙ ap (λ b. some (b, seen.1)) all,
            )

    -- Where iptables does what its manual says, no rule is there as often as the removal may take
    -- rounds, and `Apply` with that backend succeeds, the rules that the session is to have, for
    -- either family in each configured direction, are then there exactly once, and `Present` finds
    -- them. Every other rule is there as often as before, one that `Apply` made for the same interface
    -- with another MSS included.
    pub apply-once :
        (u : W)
        → apply output fuel iface tunnel_mtu m w ≡ some (true, u)
        → ((s : Slot)
            → count u s ≡ (
                if listed s (expected_rules (with_defaults m) iface tunnel_mtu)
                then 1
                else count w s))
          × (x : W) × (present output fuel iface tunnel_mtu m u ≡ some (true, x))
    apply-once u h =
        let (once, x, seen) = applied-once u h in
        (
          λ s.
              subst (λ l. count u s ≡ (if listed s l then 1 else count w s))
                (own_slots-expected (run_of output) count lawful full iface tunnel_mtu) (once s),
          x,
          seen,
        )

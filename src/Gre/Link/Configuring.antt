-- ===== src/Gre/Link/Configuring.antt =====
-- What the settings of an `Ensure` of internal/gre/link_linux.go leave of a link where they succeed.
use gremlind.Prelude.{
  ℕ, ◌≡◌, refl, sym, subst, ◌∙◌, ◌⊎◌, inl, inr, false, ok, err, nat_eq, list_eq, Bool-cases,
  Result-cases, if◌then◌else◌,
}
use gremlind.Net.{Addr, is_valid, is4}
use gremlind.Gre.Params.{Params}
use gremlind.Gre.Link.{
  Action, Netlink, host_bits, scope_link, then_do, when, assign_link_local, assign_inner,
  route_peer, configure,
}
use gremlind.Gre.Link.Kernel.{Settles}

-- A chain that succeeds: so do both of its steps, and it ends where the second does.
then_do-ok :
    {W : Type 0}
    → (first next : Action W (Unit {0})) (w : W) (u : Unit {0}) → (then_do first next w).0 ≡ ok u
    → ((first w).0 ≡ ok tt)
      × ((next (first w).1).0 ≡ ok tt)
      × ((then_do first next w).1 ≡ (next (first w).1).1)
unfolding then_do
then_do-ok first next w u h = elim (Result-cases (first w).0) [
  | inl (v, e) ↦ (e, rw (e, then_do) at h, rw (e, then_do) refl)
  | inr (x, e) ↦ let bad : err x ≡ ok u = rw (e, then_do) at h in cc
]

-- The bits of an address of its own.
abbrev pub own_bits : Addr → ℕ
own_bits a = if is4 a then 32 else 128

module _ {W : Type 0} (k : Netlink W) (HasAddr : W → ℕ → Addr → ℕ → ℕ → Type 0)
    (IsUp : W → ℕ → Type 0) (HasRoute : W → ℕ → Addr → ℕ → Type 0)
    (settles : Settles k HasAddr IsUp HasRoute) where
  -- The link has its addresses, is up and has the route to its peer.
  abbrev pub Configured : Params → ℕ → W → Type 0
  Configured p i w =
      ((is_valid p.link_local ≡ false) ⊎ HasAddr w i p.link_local 64 253)
      × HasAddr w i p.inner_local (own_bits p.inner_local) 0
      × IsUp w i
      × ((is_valid p.inner_peer ≡ false) ⊎ HasRoute w i p.inner_peer (own_bits p.inner_peer))

  assign_link_local-sets :
      (i : ℕ) (p : Params) (w : W)
      → (assign_link_local k i p w).0 ≡ ok tt
      → (is_valid p.link_local ≡ false)
        ⊎ HasAddr (assign_link_local k i p w).1 i p.link_local 64 253
  unfolding assign_link_local when
  assign_link_local-sets i p w h = elim (Bool-cases (is_valid p.link_local)) [
    | inr none ↦ inl none
    | inl valid ↦
        let gen = k.set_addr_gen_mode_none i in
        let add = k.addr_add i p.link_local 64 scope_link in
        let chain : (then_do gen add w).0 ≡ ok tt = rw (valid, assign_link_local, when) at h in
        let (_, added, ends) = then_do-ok gen add w tt chain in
        let there = settles.addr_set i p.link_local 64 scope_link (gen w).1 added in
        inr (
          rw (valid, assign_link_local, when)
            (subst (λ v. HasAddr v i p.link_local 64 253) (sym ends) there))
  ]

  route_peer-sets :
      (i : ℕ) (p : Params) (w : W)
      → (route_peer k i p w).0 ≡ ok tt
      → (is_valid p.inner_peer ≡ false)
        ⊎ HasRoute (route_peer k i p w).1 i p.inner_peer (own_bits p.inner_peer)
  unfolding route_peer when host_bits
  route_peer-sets i p w h = elim (Bool-cases (is_valid p.inner_peer)) [
    | inr none ↦ inl none
    | inl valid ↦
        let added : (k.route_add i p.inner_peer (host_bits p.inner_peer) w).0 ≡ ok tt =
          rw (valid, route_peer, when) at h in
        inr (
          rw (valid, route_peer, when)
            (settles.route_set i p.inner_peer (host_bits p.inner_peer) w added))
  ]

  route_peer-keeps :
      (i : ℕ) (p : Params) (w : W) (b : Addr) (n s : ℕ)
      → HasAddr w i b n s
      → HasAddr (route_peer k i p w).1 i b n s
  unfolding route_peer when
  route_peer-keeps i p w b n s h = elim (Bool-cases (is_valid p.inner_peer)) [
    | inr none ↦ rw (none, route_peer, when) h
    | inl valid ↦
        rw (valid, route_peer, when)
          (settles.route_keeps i p.inner_peer (host_bits p.inner_peer) w i b n s h)
  ]

  route_peer-keeps_IsUp : (i : ℕ) (p : Params) (w : W) → IsUp w i → IsUp (route_peer k i p w).1 i
  unfolding route_peer when
  route_peer-keeps_IsUp i p w h = elim (Bool-cases (is_valid p.inner_peer)) [
    | inr none ↦ rw (none, route_peer, when) h
    | inl valid ↦
        rw (valid, route_peer, when)
          (settles.route_keeps_up i p.inner_peer (host_bits p.inner_peer) w i h)
  ]

  pub configure-Configured :
      (i : ℕ) (p : Params) (w : W)
      → (configure k i p w).0 ≡ ok tt
      → Configured p i (configure k i p w).1
  unfolding configure assign_inner host_bits
  configure-Configured i p w h =
      let route = route_peer k i p in
      let up = then_do (k.set_up i) route in
      let inner = assign_inner k i p in
      let (local_ok, rest_ok, e1) =
        then_do-ok (assign_link_local k i p) (then_do inner up) w tt h in
      let w1 = (assign_link_local k i p w).1 in
      let (inner_ok, up_route_ok, e2) = then_do-ok inner up w1 tt rest_ok in
      let w2 = (inner w1).1 in
      let (up_ok, route_ok, e3) = then_do-ok (k.set_up i) route w2 tt up_route_ok in
      let w3 = (k.set_up i w2).1 in
      let bits = host_bits p.inner_local in
      let added = settles.addr_set i p.inner_local bits 0 w1 inner_ok in
      let own =
        route_peer-keeps i p w3 p.inner_local bits 0
          (settles.up_keeps i w2 i p.inner_local bits 0 added) in
      let local : (is_valid p.link_local ≡ false) ⊎ HasAddr (route w3).1 i p.link_local 64 253 =
        elim (assign_link_local-sets i p w local_ok) [
          | inl none ↦ inl none
          | inr there ↦ inr (
              route_peer-keeps i p w3 p.link_local 64 253 (
                settles.up_keeps i w2 i p.link_local 64 253
                  (settles.addr_keeps i p.inner_local bits 0 w1 i p.link_local 64 253 there)))
        ] in
      subst (Configured p i) (sym (e1 ∙ e2 ∙ e3)) (
        local,
        own,
        route_peer-keeps_IsUp i p w3 (settles.up_set i w2 up_ok),
        route_peer-sets i p w3 route_ok,
      )

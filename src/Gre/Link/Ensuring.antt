-- ===== src/Gre/Link/Ensuring.antt =====
-- `Ensure` of internal/gre/link_linux.go: what it leaves of the kernel's links, however it ends.
use gremlind.Prelude.{
  ℕ, ◌≡◌, refl, sym, ap, ◌∙◌, inl, inr, Bool, true, false, List, Result, ok, err, Result-cases,
}
use gremlind.Prelude.Bytes.{Bytes}
use gremlind.Net.{is_valid}
use gremlind.Gre.Params.{Params}
use gremlind.Gre.Link.{
  LinkInfo, LinkError, Netlink, Action, find_index, host_bits, kind_of, scope_link,
  different_family, then_do, when, link_index, configure, assign_link_local, assign_inner,
  route_peer, indexed, clear, unwind, finish_ensure, ensure, families,
}
use gremlind.Gre.Link.Views.{others, find_index-without, others-others}
use gremlind.Gre.Link.Kernel.{Lawful}

module _ {W : Type 0} (links : W → List LinkInfo) where
  -- An action that adds no link and takes none.
  abbrev pub Keeps : Action W (Unit {0}) → Type 0
  Keeps act = (w : W) → links (act w).1 ≡ links w

  then_do-Keeps :
      (first next : Action W (Unit {0})) → Keeps first → Keeps next → Keeps (then_do first next)
  unfolding then_do
  then_do-Keeps first next f n w = elim (Result-cases (first w).0) [
    | inl (u, e) ↦ rw (e, then_do) (n (first w).1 ∙ f w)
    | inr (x, e) ↦ rw (e, then_do) (f w)
  ]

  when-Keeps : (test : Bool) (act : Action W (Unit {0})) → Keeps act → Keeps (when test act)
  unfolding when
  when-Keeps true act h w = h w
  when-Keeps false act h w = refl

module _ {W : Type 0} (k : Netlink W) (links : W → List LinkInfo) (lawful : Lawful k links) where
  assign_link_local-Keeps : (idx : ℕ) (p : Params) → Keeps links (assign_link_local k idx p)
  unfolding assign_link_local
  assign_link_local-Keeps idx p =
      let gen = k.set_addr_gen_mode_none idx in
      let add = k.addr_add idx p.link_local 64 scope_link in
      when-Keeps links (is_valid p.link_local) (then_do gen add) (
        then_do-Keeps links gen add (lawful.gen_mode_links idx)
          (lawful.addr_links idx p.link_local 64 scope_link))

  assign_inner-Keeps : (idx : ℕ) (p : Params) → Keeps links (assign_inner k idx p)
  unfolding assign_inner
  assign_inner-Keeps idx p = lawful.addr_links idx p.inner_local (host_bits p.inner_local) 0

  route_peer-Keeps : (idx : ℕ) (p : Params) → Keeps links (route_peer k idx p)
  unfolding route_peer
  route_peer-Keeps idx p =
      when-Keeps links (is_valid p.inner_peer)
        (k.route_add idx p.inner_peer (host_bits p.inner_peer))
        (lawful.route_links idx p.inner_peer (host_bits p.inner_peer))

  pub configure-Keeps : (idx : ℕ) (p : Params) → Keeps links (configure k idx p)
  unfolding configure
  configure-Keeps idx p =
      let route = route_peer k idx p in
      let up = then_do (k.set_up idx) route in
      let inner = then_do (assign_inner k idx p) up in
      then_do-Keeps links (assign_link_local k idx p) inner (assign_link_local-Keeps idx p) (
        then_do-Keeps links (assign_inner k idx p) up (assign_inner-Keeps idx p)
          (then_do-Keeps links (k.set_up idx) route (lawful.up_links idx) (route_peer-Keeps idx p)))

  -- A name that is looked up is found in the kernel's links.
  pub link_index-found :
      (name : Bytes) (w : W) (i : ℕ) → link_index k name w ≡ ok i → find_index name (links w) ≡ ok i
  unfolding link_index find_index indexed
  link_index-found name w i h = by_dump (k.dump w) refl h
    where
      by_dump :
          (r : Result LinkError (List LinkInfo))
          → k.dump w ≡ r
          → indexed name r ≡ ok i
          → find_index name (links w) ≡ ok i
      by_dump (err e) d h = cc
      by_dump (ok ls) d h = rw (lawful.dumped w d) at h

  -- A deletion of the link that a name was found at leaves the others, or everything where it fails.
  pub del-others :
      (name : Bytes) (w : W) (i : ℕ)
      → find_index name (links w) ≡ ok i
      → others name (links (k.del i w).1) ≡ others name (links w)
  del-others name w i found = elim (Result-cases (k.del i w).0) [
    | inl (u, e) ↦
        ap (others name)
          (lawful.deleted i w e ∙ find_index-without name (links w) i (lawful.unique w) found)
        ∙ others-others name (links w)
    | inr (x, e) ↦ ap (others name) (lawful.not_deleted i w e)
  ]

  pub clear-others :
      (name : Bytes) (w : W) → others name (links (clear k name w)) ≡ others name (links w)
  unfolding clear
  clear-others name w = elim (Result-cases (link_index k name w)) [
    | inl (i, e) ↦ rw (e, clear) (del-others name w i (link_index-found name w i e))
    | inr (x, e) ↦ rw (e, clear) refl
  ]

  pub unwind_ok :
      (i : ℕ) (r : Result LinkError (Unit {0}) × W) {u : Unit {0}}
      → r.0 ≡ ok u
      → unwind k i r ≡ (ok u, r.1)
  unfolding unwind
  unwind_ok i (ok v, w) h = refl
  unwind_ok i (err e, w) h = cc

  pub unwind_err :
      (i : ℕ) (r : Result LinkError (Unit {0}) × W) {e : LinkError}
      → r.0 ≡ err e
      → unwind k i r ≡ (err e, (k.del i r.1).1)
  unfolding unwind
  unwind_err i (ok v, w) h = cc
  unwind_err i (err x, w) h = cc

  module _ (p : Params) where
    pub located :
        (w : W) (i : ℕ)
        → link_index k p.name w ≡ ok i
        → finish_ensure k p w ≡ unwind k i (configure k i p w)
    unfolding finish_ensure
    located w i e = rw (e, finish_ensure) refl

    pub lost :
        (w : W) (x : LinkError) → link_index k p.name w ≡ err x → finish_ensure k p w ≡ (err x, w)
    unfolding finish_ensure
    lost w x e = rw (e, finish_ensure) refl

    pub finish_ensure-built :
        (w : W) (u : Unit {0})
        → (finish_ensure k p w).0 ≡ ok u
        → links (finish_ensure k p w).1 ≡ links w
    finish_ensure-built w u h = elim (Result-cases (link_index k p.name w)) [
      | inr (x, e) ↦ let bad = sym (ap (λ r. r.0) (lost w x e)) ∙ h in cc
      | inl (i, e) ↦ elim (Result-cases (configure k i p w).0) [
        | inl (v, c) ↦
            ap (λ r. links r.1) (located w i e ∙ unwind_ok i (configure k i p w) c)
            ∙ configure-Keeps i p w
        | inr (x, c) ↦
            let bad =
              sym (ap (λ r. r.0) (located w i e ∙ unwind_err i (configure k i p w) c)) ∙ h in
            cc
      ]
    ]

    -- The kernel's answer to `create`, and what follows.
    pub created_ok :
        (w : W) (u : Unit {0})
        → different_family p.local p.remote ≡ false
        → (k.create (kind_of p) p (clear k p.name w)).0 ≡ ok u
        → ensure k p w ≡ finish_ensure k p (k.create (kind_of p) p (clear k p.name w)).1
    unfolding ensure then_do
    created_ok w u same c = rw (same, c, ensure, then_do) refl

    pub created_err :
        (w : W) (x : LinkError)
        → different_family p.local p.remote ≡ false
        → (k.create (kind_of p) p (clear k p.name w)).0 ≡ err x
        → ensure k p w ≡ (err x, (k.create (kind_of p) p (clear k p.name w)).1)
    unfolding ensure then_do
    created_err w x same c = rw (same, c, ensure, then_do) refl

    pub mixed :
        (w : W) → different_family p.local p.remote ≡ true → ensure k p w ≡ (err families, w)
    unfolding ensure
    mixed w h = rw (h, ensure) refl

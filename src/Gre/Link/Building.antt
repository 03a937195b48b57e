-- ===== src/Gre/Link/Building.antt =====
-- The link that an `Ensure` of internal/gre/link_linux.go leaves where it succeeds, and its settings.
use gremlind.Prelude.{
  ℕ, ◌≡◌, refl, sym, ap, subst, ◌∙◌, ◌⊎◌, inl, inr, false, List, [], ◌∷◌, ◌++◌, ok, ◌==◌, nat_eq,
  list_eq, arith, Bool-cases, Result-cases, if◌then◌else◌,
}
use gremlind.Prelude.Texts.{ascii}
use gremlind.Net.{Addr, is_valid, is6}
use gremlind.Gre.Params.{Params}
use gremlind.Gre.Link.{
  LinkInfo, Netlink, find_index, kind_of, different_family, link_index, configure, clear,
  finish_ensure, ensure,
}
use gremlind.Gre.Link.Views.{others, filter}
use gremlind.Gre.Link.Kernel.{Lawful, Settles}
use gremlind.Gre.Link.Ensuring.{
  link_index-found, located, lost, finish_ensure-built, created_ok, created_err, mixed, unwind_ok,
  unwind_err,
}
use gremlind.Gre.Link.Unwinding.{link_of, created-links}
use gremlind.Gre.Link.Configuring.{own_bits, Configured, configure-Configured}

-- The last of links with other names is found by its name.
find_index-last :
    (ls : List LinkInfo) (l : LinkInfo)
    → find_index l.name (others l.name ls ++ l ∷ []) ≡ ok l.index
unfolding find_index filter
find_index-last [] l = ground (arith, (list_eq {A = ℕ}).decides l.name l.name)
find_index-last (m ∷ ls) l = elim (Bool-cases (m.name == l.name)) [
  | inl here ↦ rw here (find_index-last ls l)
  | inr there ↦ rw there (ground (arith, there, find_index-last ls l))
]

-- The link that is asked for: "gre" over IPv4, "ip6gre" over IPv6.
abbrev pub asked_link : Params → ℕ → LinkInfo
asked_link p i = record {
  index = i;
  name = p.name;
  kind = if is6 p.local then ascii "ip6gre" else ascii "gre";
}

link_of-asked : (p : Params) (i : ℕ) → link_of p i ≡ asked_link p i
unfolding kind_of
link_of-asked p i = refl

module _ {W : Type 0} (k : Netlink W) (links : W → List LinkInfo) (lawful : Lawful k links)
    (HasAddr : W → ℕ → Addr → ℕ → ℕ → Type 0) (IsUp : W → ℕ → Type 0)
    (HasRoute : W → ℕ → Addr → ℕ → Type 0) (settles : Settles k HasAddr IsUp HasRoute) where
  -- What follows the creation, where it succeeds at the link of index `i`.
  finish_ensure-Configured :
      (p : Params) (w : W) (i : ℕ)
      → find_index p.name (links w) ≡ ok i
      → (finish_ensure k p w).0 ≡ ok tt
      → Configured k HasAddr IsUp HasRoute settles p i (finish_ensure k p w).1
  finish_ensure-Configured p w i found h = elim (Result-cases (link_index k p.name w)) [
    | inr (x, e) ↦ let bad = sym (ap (λ r. r.0) (lost k links lawful p w x e)) ∙ h in cc
    | inl (j, e) ↦
        let at : ok j ≡ ok i = sym (link_index-found k links lawful p.name w j e) ∙ found in
        let same : j ≡ i = cc in
        let step = located k links lawful p w j e in
        elim (Result-cases (configure k j p w).0) [
          | inr (x, c) ↦
              let bad =
                sym (ap (λ r. r.0) (step ∙ unwind_err k links lawful j (configure k j p w) c))
                ∙ h in
              cc
          | inl (v, c) ↦
              let ends = ap (λ r. r.1) (step ∙ unwind_ok k links lawful j (configure k j p w) c) in
              subst (Configured k HasAddr IsUp HasRoute settles p i) (sym ends) (
                subst (λ n. Configured k HasAddr IsUp HasRoute settles p n (configure k j p w).1)
                  same (configure-Configured k HasAddr IsUp HasRoute settles j p w c))
        ]
  ]

  -- Where the kernel does with its links and their settings what rtnetlink documents, an `Ensure`
  -- that succeeds leaves one link of the asked name behind the links of every other name as they
  -- were, of the kind "gre" over IPv4 and "ip6gre" over IPv6. That link has the link-local address,
  -- where one is asked for, with 64 bits and the scope of the link; the inner address with all its
  -- bits and the global scope; is up; and has a route to the peer, where there is one.
  pub ensure-built :
      (p : Params) (w : W)
      → (ensure k p w).0 ≡ ok tt
      → (i : ℕ) × (links (ensure k p w).1 ≡ others p.name (links w) ++ asked_link p i ∷ [])
        × ((is_valid p.link_local ≡ false) ⊎ HasAddr (ensure k p w).1 i p.link_local 64 253)
        × HasAddr (ensure k p w).1 i p.inner_local (own_bits p.inner_local) 0
        × IsUp (ensure k p w).1 i
        × ((is_valid p.inner_peer ≡ false)
            ⊎ HasRoute (ensure k p w).1 i p.inner_peer (own_bits p.inner_peer))
  ensure-built p w h = elim (Bool-cases (different_family p.local p.remote)) [
    | inl mix ↦ let bad = sym (ap (λ r. r.0) (mixed k links lawful p w mix)) ∙ h in cc
    | inr same ↦ elim (Result-cases (k.create (kind_of p) p (clear k p.name w)).0) [
      | inr (x, c) ↦
          let bad = sym (ap (λ r. r.0) (created_err k links lawful p w x same c)) ∙ h in cc
      | inl (v, c) ↦
          let made = (k.create (kind_of p) p (clear k p.name w)).1 in
          let (i, now) = created-links k links lawful p w c in
          let step = created_ok k links lawful p w v same c in
          let done = sym (ap (λ r. r.0) step) ∙ h in
          let found = ap (find_index p.name) now ∙ find_index-last (links w) (link_of p i) in
          let (local, own, up, route) =
            subst (Configured k HasAddr IsUp HasRoute settles p i) (sym (ap (λ r. r.1) step))
              (finish_ensure-Configured p made i found done) in
          (
            i,
            ap (λ r. links r.1) step
                ∙ finish_ensure-built k links lawful p made tt done
                ∙ now
                ∙ ap (λ l. others p.name (links w) ++ l ∷ []) (link_of-asked p i),
            local,
            own,
            up,
            route,
          )
    ]
  ]

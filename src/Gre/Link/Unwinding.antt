-- ===== src/Gre/Link/Unwinding.antt =====
-- `Ensure` of internal/gre/link_linux.go, whole: what it unwinds.
use gremlind.Prelude.{
  ℕ, ◌≡◌, refl, sym, ap, subst, ◌∙◌, inl, inr, false, List, [], ◌∷◌, ◌++◌, ok, err, Result-cases,
}
use gremlind.Prelude.Bytes.{Bytes}
use gremlind.Gre.Params.{Params}
use gremlind.Gre.Link.{
  LinkInfo, LinkError, Netlink, find_index, kind_of, different_family, link_index, indexed,
  configure, clear, finish_ensure, ensure,
}
use gremlind.Gre.Link.Views.{
  others, Unique, find_index-without, find_index-missing, others-others, Unique-snoc, others-snoc,
}
use gremlind.Gre.Link.Kernel.{Lawful, Reliable}
use gremlind.Gre.Link.Ensuring.{
  configure-Keeps, clear-others, located, lost, created_ok, created_err, unwind_ok, unwind_err,
}

-- The link that `Ensure` is asked for, at the index that the kernel gives it.
abbrev pub link_of : Params → ℕ → LinkInfo
link_of p i = record { index = i; name = p.name; kind = kind_of p }

module _ {W : Type 0} (k : Netlink W) (links : W → List LinkInfo) (lawful : Lawful k links) where
  -- The links once the new one is created, by those that were there.
  pub created-links :
      (p : Params) (w : W) {u : Unit {0}}
      → (k.create (kind_of p) p (clear k p.name w)).0 ≡ ok u
      → (i : ℕ) × (links (k.create (kind_of p) p (clear k p.name w)).1
          ≡ others p.name (links w) ++ link_of p i ∷ [])
  created-links p w c =
      let before = clear k p.name w in
      let (i, added) = lawful.created (kind_of p) p before c in
      let unique = subst Unique added (lawful.unique (k.create (kind_of p) p before).1) in
      let fresh = sym (Unique-snoc (links before) (link_of p i) unique) in
      (i, added ∙ ap (λ ls. ls ++ link_of p i ∷ []) (fresh ∙ clear-others k links lawful p.name w))

  module _ (reliable : Reliable k links) where
    pub looked_up : (name : Bytes) (w : W) → link_index k name w ≡ find_index name (links w)
    unfolding link_index indexed
    looked_up name w = rw (reliable.dump_ok w, link_index) refl

    pub del-gone :
        (name : Bytes) (w : W) (i : ℕ)
        → link_index k name w ≡ ok i
        → links (k.del i w).1 ≡ others name (links w)
    del-gone name w i e =
        let found = sym (looked_up name w) ∙ e in
        lawful.deleted i w (reliable.del_ok name i w found)
        ∙ find_index-without name (links w) i (lawful.unique w) found

    clear-gone : (name : Bytes) (w : W) → links (clear k name w) ≡ others name (links w)
    unfolding clear
    clear-gone name w = elim (Result-cases (link_index k name w)) [
      | inl (i, e) ↦ rw (e, clear) (del-gone name w i e)
      | inr (x, e) ↦
          rw (e, clear) (sym (find_index-missing name (links w) (sym (looked_up name w) ∙ e)))
    ]

    unwound :
        (p : Params) (w : W) (e : LinkError)
        → (finish_ensure k p w).0 ≡ err e
        → links (finish_ensure k p w).1 ≡ others p.name (links w)
    unwound p w e h = elim (Result-cases (link_index k p.name w)) [
      | inr (x, l) ↦
          ap (λ r. links r.1) (lost k links lawful p w x l)
          ∙ sym (find_index-missing p.name (links w) (sym (looked_up p.name w) ∙ l))
      | inl (i, l) ↦ elim (Result-cases (configure k i p w).0) [
        | inl (v, c) ↦
            let bad =
              sym (
                ap (λ r. r.0)
                  (located k links lawful p w i l
                    ∙ unwind_ok k links lawful i (configure k i p w) c))
              ∙ h in
            cc
        | inr (x, c) ↦
            let kept = configure-Keeps k links lawful i p w in
            let there : link_index k p.name (configure k i p w).1 ≡ ok i =
              looked_up p.name (configure k i p w).1
              ∙ ap (find_index p.name) kept
              ∙ sym (looked_up p.name w)
              ∙ l in
            ap (λ r. links r.1)
              (located k links lawful p w i l ∙ unwind_err k links lawful i (configure k i p w) c)
            ∙ del-gone p.name (configure k i p w).1 i there
            ∙ ap (others p.name) kept
      ]
    ]

    -- Where the kernel does with its links what rtnetlink documents, and neither a dump fails nor
    -- the deletion of a link that is there, an `Ensure` for outer addresses of one family that fails
    -- leaves no link of the asked name, half-configured or from before, and the links of every other
    -- name as they were.
    pub ensure-unwound :
        (p : Params) (w : W) (e : LinkError)
        → different_family p.local p.remote ≡ false
        → (ensure k p w).0 ≡ err e
        → links (ensure k p w).1 ≡ others p.name (links w)
    ensure-unwound p w e same h =
        elim (Result-cases (k.create (kind_of p) p (clear k p.name w)).0) [
          | inr (x, c) ↦
              ap (λ r. links r.1) (created_err k links lawful p w x same c)
              ∙ lawful.not_created (kind_of p) p (clear k p.name w) c
              ∙ clear-gone p.name w
          | inl (v, c) ↦
              let (i, now) = created-links p w c in
              let step = created_ok k links lawful p w v same c in
              let failed = sym (ap (λ r. r.0) step) ∙ h in
              ap (λ r. links r.1) step
              ∙ unwound p (k.create (kind_of p) p (clear k p.name w)).1 e failed
              ∙ ap (others p.name) now
              ∙ others-snoc (others p.name (links w)) (link_of p i)
              ∙ others-others p.name (links w)
        ]

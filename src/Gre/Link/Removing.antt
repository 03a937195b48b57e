-- ===== src/Gre/Link/Removing.antt =====
-- `Remove`, `RemovePrefix` and `RemoveNamedGRE` of internal/gre/link_linux.go: the links that stay.
use gremlind.Prelude.{
  ◌≡◌, ◌≢◌, refl, sym, ap, subst, ◌∙◌, inl, inr, Bool, true, false, ◌&&◌, not, List, [], ◌∷◌, ◌++◌,
  Option, none, ok, ◌==◌, nat_eq, list_eq, arith, Bool-cases, Result-cases, All, if◌then◌else◌,
}
use mathlib.Core.Path.{fun_ext}
use mathlib.Core.List.{append_assoc}
use gremlind.Prelude.Bytes.{Bytes}
use gremlind.Prelude.Maps.{has, has-insert, has-nil}
use gremlind.Gre.Link.{
  LinkInfo, LinkError, Netlink, is_gre_kind, want_set, link_index, remove, remove_links,
  remove_dumped, remove_named_gre,
}
use gremlind.Gre.Link.Views.{
  filter, filter_all, filter-append, others, Unique, without_index, other_index, find_index-missing,
}
use gremlind.Gre.Link.Kernel.{Lawful, Reliable}
use gremlind.Gre.Link.Unwinding.{looked_up, del-gone}

-- A link in the middle of unique ones goes by its index.
without_middle :
    (kept : List LinkInfo) (l : LinkInfo) (ls : List LinkInfo)
    → Unique (kept ++ l ∷ ls)
    → without_index l.index (kept ++ l ∷ ls) ≡ kept ++ ls
unfolding filter
without_middle [] l ls u =
    let same : l.index == l.index ≡ true = (nat_eq.decides l.index l.index).1 refl in
    rw same (filter_all (λ m. not (m.index == l.index)) ls (apart ls u.0))
  where
    apart :
        (rest : List LinkInfo)
        → All (λ m. (m.index ≢ l.index) × (m.name ≢ l.name)) rest
        → All (λ m. not (m.index == l.index) ≡ true) rest
    apart [] h = tt
    apart (m ∷ rest) h = (other_index l.index m.index h.0.0, apart rest h.1)
without_middle (m ∷ kept) l ls u =
    let differs = middle kept u.0 in
    rw (other_index l.index m.index (λ e. differs (sym e)))
      (ap (◌∷◌ m) (without_middle kept l ls u.1))
  where
    middle :
        (rest : List LinkInfo)
        → All (λ x. (x.index ≢ m.index) × (x.name ≢ m.name)) (rest ++ l ∷ ls)
        → l.index ≢ m.index
    middle [] h = h.0.0
    middle (x ∷ rest) h = middle rest h.1

module _ {W : Type 0} (k : Netlink W) (links : W → List LinkInfo) (lawful : Lawful k links)
    (wanted : LinkInfo → Bool) where
  abbrev unwanted : LinkInfo → Bool
  unwanted l = not (wanted l)

  -- What the loop leaves, where it stands at `ls` behind the links that it kept.
  record Leaves (kept ls : List LinkInfo) (r : (List Bytes × Option LinkError) × W) : Type 0 where
    stays : filter unwanted (links r.1) ≡ filter unwanted (kept ++ ls)
    done : r.0.1 ≡ none → links r.1 ≡ kept ++ filter unwanted ls

  abbrev Run : Type 0
  Run = (List Bytes × Option LinkError) × W

  skips :
      (kept : List LinkInfo) (l : LinkInfo) (ls : List LinkInfo) (r : Run)
      → wanted l ≡ false
      → Leaves (kept ++ l ∷ []) ls r
      → Leaves kept (l ∷ ls) r
  unfolding filter
  skips kept l ls r skip v = record {
    stays = v.stays ∙ ap (filter unwanted) (append_assoc kept (l ∷ []) ls);
    done = λ e. rw skip (v.done e ∙ append_assoc kept (l ∷ []) (filter unwanted ls));
  }

  deletes :
      (kept : List LinkInfo) (l : LinkInfo) (ls : List LinkInfo) (r : Run)
      → wanted l ≡ true
      → Leaves kept ls r
      → Leaves kept (l ∷ ls) r
  unfolding filter
  deletes kept l ls r hit v = record {
    stays =
        v.stays
        ∙ filter-append unwanted kept ls
        ∙ sym (filter-append unwanted kept (l ∷ ls) ∙ (rw hit refl));
    done = λ e. rw hit (v.done e);
  }

  remove_links-Leaves :
      (ls kept : List LinkInfo) (removed : List Bytes) (w : W)
      → links w ≡ kept ++ ls
      → Leaves kept ls (remove_links k wanted ls removed w)
  unfolding remove_links filter
  remove_links-Leaves [] kept removed w h = record { stays = ap (filter unwanted) h; done = λ e. h }
  remove_links-Leaves (l ∷ ls) kept removed w h = elim (Bool-cases (wanted l)) [
    | inr skip ↦
        let rest =
          remove_links-Leaves ls (kept ++ l ∷ []) removed w
            (h ∙ sym (append_assoc kept (l ∷ []) ls)) in
        skips kept l ls _ skip (rw (skip, remove_links) rest)
    | inl hit ↦ elim (Result-cases (k.del l.index w).0) [
      | inr (x, e) ↦
          let same = ap (filter unwanted) (lawful.not_deleted l.index w e ∙ h) in
          rw (hit, e, remove_links) (record { stays = same; done = λ bad. cc })
      | inl (u, e) ↦
          let unique = subst Unique h (lawful.unique w) in
          let now : links (k.del l.index w).1 ≡ kept ++ ls =
            lawful.deleted l.index w e
            ∙ ap (without_index l.index) h
            ∙ without_middle kept l ls unique in
          let rest = remove_links-Leaves ls kept (l.name ∷ removed) (k.del l.index w).1 now in
          deletes kept l ls _ hit (rw (hit, e, remove_links) rest)
    ]
  ]

  pub remove_dumped-leaves :
      (w : W)
      → let (r, after) = remove_dumped k wanted (k.dump w) w in
        (filter unwanted (links after) ≡ filter unwanted (links w))
        × (r.1 ≡ none → links after ≡ filter unwanted (links w))
  unfolding remove_dumped
  remove_dumped-leaves w = elim (Result-cases (k.dump w)) [
    | inr (x, e) ↦ rw (e, remove_dumped) (refl, λ bad. cc)
    | inl (ls, e) ↦
        let same = lawful.dumped w e in
        let v = remove_links-Leaves ls [] [] w (sym same) in
        rw (e, remove_dumped)
          (v.stays ∙ ap (filter unwanted) same, λ d. v.done d ∙ ap (filter unwanted) same)
  ]

-- The name is in the list, and the kind is one of the two that gremlind creates.
abbrev pub listed : Bytes → List Bytes → Bool
listed n [] = false
listed n (m ∷ names) = if m == n then true else listed n names

has-want_set : (n : Bytes) (names : List Bytes) → has n (want_set names) ≡ listed n names
unfolding want_set
has-want_set n [] = has-nil n
has-want_set n (m ∷ names) =
    ground (arith, has-insert m n true (want_set names), has-want_set n names)

unfoldable pub kept_by : List Bytes → LinkInfo → Bool
unfolding is_gre_kind
kept_by names l = not (listed l.name names && is_gre_kind l.kind)

kept_by_want :
    (names : List Bytes)
    → (λ (l : LinkInfo). not (has l.name (want_set names) && is_gre_kind l.kind)) ≡ kept_by names
unfolding kept_by
kept_by_want names = fun_ext λ l. rw (has-want_set l.name names) refl

kept_by_nil : (ls : List LinkInfo) → All (λ l. kept_by [] l ≡ true) ls
unfolding kept_by
kept_by_nil [] = tt
kept_by_nil (l ∷ ls) = (refl, kept_by_nil ls)

module _ {W : Type 0} (k : Netlink W) (links : W → List LinkInfo) (lawful : Lawful k links) where
  named_gre :
      (names : List Bytes) (w : W)
      → let (r, after) = remove_named_gre k names w in
        (filter (kept_by names) (links after) ≡ filter (kept_by names) (links w))
        × (r.1 ≡ none → links after ≡ filter (kept_by names) (links w))
  unfolding remove_named_gre
  named_gre [] w = (refl, λ _. sym (filter_all (kept_by []) (links w) (kept_by_nil (links w))))
  named_gre (n ∷ names) w =
      let wanted = λ (l : LinkInfo). has l.name (want_set (n ∷ names)) && is_gre_kind l.kind in
      let (r, after) = remove_dumped k wanted (k.dump w) w in
      subst
        (λ f.
          (filter f (links after) ≡ filter f (links w))
          × (r.1 ≡ none → links after ≡ filter f (links w)))
        (kept_by_want (n ∷ names)) (remove_dumped-leaves k links lawful wanted w)

  -- Where the kernel does with its links what rtnetlink documents, the clean-up of the pinned names
  -- leaves every link whose name is not listed or whose kind is not a GRE one, in order, however it
  -- ends.
  pub remove_named_gre-kept :
      (names : List Bytes) (w : W)
      → filter (kept_by names) (links (remove_named_gre k names w).1)
        ≡ filter (kept_by names) (links w)
  remove_named_gre-kept names w = (named_gre names w).0

  -- Where it ends without an error, it leaves no other link.
  pub remove_named_gre-clean :
      (names : List Bytes) (w : W)
      → (remove_named_gre k names w).0.1 ≡ none
      → links (remove_named_gre k names w).1 ≡ filter (kept_by names) (links w)
  remove_named_gre-clean names w done = (named_gre names w).1 done

  -- Where moreover a dump does not fail, nor the deletion of a link that is there, `Remove` succeeds,
  -- and takes the link of that name, where there is one, and no other.
  pub remove-gone :
      Reliable k links
      → (name : Bytes) (w : W)
      → ((remove k name w).0 ≡ ok tt) × (links (remove k name w).1 ≡ others name (links w))
  unfolding remove
  remove-gone reliable name w = elim (Result-cases (link_index k name w)) [
    | inl (i, e) ↦
        let found = sym (looked_up k links lawful reliable name w) ∙ e in
        rw (e, remove) (reliable.del_ok name i w found, del-gone k links lawful reliable name w i e)
    | inr (x, e) ↦
        let missing = sym (looked_up k links lawful reliable name w) ∙ e in
        rw (e, remove) (refl, sym (find_index-missing name (links w) missing))
  ]

-- ===== src/Pool/History.antt =====
-- A pool over any sequence of calls: the invariant that its methods keep, and what `InUse` counts.
use gremlind.Prelude.{
  suc, ◌≡◌, refl, subst, ap, Bool, true, false, List, [], ◌∷◌, Result, ok, err, arith, length,
  if◌then◌else◌,
}
use gremlind.Prelude.Maps.{
  Map, insert, delete, lookup, has, has-delete, has-nil, Distinct, insert-Distinct, delete-Distinct,
  length-insert, length-delete, is_some,
}
use gremlind.Net.{Addr, addr_eq, addr_eqb_iff, Prefix, InWidth, contains, masked, prefix_is_valid}
use gremlind.Net.Blocks.{IsBlock, masked-IsBlock}
use gremlind.Pool.Defs.{Pool, Error, create, pin, allocate, allocate_specific, release, in_use}
use gremlind.Pool.Allocation.{
  Claims, Allocates, granted, refused, allocate-Allocates, allocate_specific-Claims,
}

-- Every value that the used map holds is true.
abbrev pub Trues : Map Addr Bool → Type 0
Trues [] = Unit {0}
Trues ((a, b) ∷ m) = (b ≡ true) × Trues m

pub record IsSound (p : Pool) : Type 0 where
  pub block : IsBlock p.prefix
  pub distinct : Distinct p.used
  pub marks : Trues p.used
  pub inside : (a : Addr) → has a p.used ≡ true → contains p.prefix a ≡ true
  pub unreserved : (a : Addr) → has a p.used ≡ true → has a p.reserved ≡ false

insert-Trues : (a : Addr) (m : Map Addr Bool) → Trues m → Trues (insert a true m)
unfolding insert
insert-Trues a [] t = (refl, tt)
insert-Trues a ((b, v) ∷ m) t = ground (arith, insert-Trues a m t.1)

delete-Trues : (a : Addr) (m : Map Addr Bool) → Trues m → Trues (delete a m)
unfolding delete
delete-Trues a [] t = tt
delete-Trues a ((b, v) ∷ m) t = ground (arith, delete-Trues a m t.1)

is_some-lookup : (a : Addr) (m : Map Addr Bool) → Trues m → is_some (lookup a m) ≡ has a m
unfolding lookup has
is_some-lookup a [] t = refl
is_some-lookup a ((b, v) ∷ m) t = ground (arith, is_some-lookup a m t.1)

-- Marking one more address keeps the invariant.
pub Claims-IsSound : (p q : Pool) (a : Addr) → IsSound p → Claims p q a → IsSound q
Claims-IsSound p q a s c = record {
  block = rw c.prefix s.block;
  distinct = rw c.writes (insert-Distinct a true p.used s.distinct);
  marks = rw c.writes (insert-Trues a p.used s.marks);
  inside =
      λ b h. rw c.prefix (ground (arith, c.now_used b, addr_eqb_iff a b, s.inside b, c.inside));
  unreserved = λ b h.
      rw c.reserved (ground (arith, c.now_used b, addr_eqb_iff a b, s.unreserved b, c.unreserved));
}

pub release-IsSound : (p : Pool) (a : Addr) → IsSound p → IsSound (release p a)
unfolding release
release-IsSound p a s = record {
  block = s.block;
  distinct = delete-Distinct a p.used s.distinct;
  marks = delete-Trues a p.used s.marks;
  inside = λ b h. ground (arith, has-delete a b p.used, s.inside b);
  unreserved = λ b h. ground (arith, has-delete a b p.used, s.unreserved b);
}

pub data Call : Type 0 where
  allocates : Call
  claims : Addr → Call
  pins : Addr → Call
  releases : Addr → Call

-- A call that fails leaves the pool as it was.
abbrev pub after {ℓ} : {A : Type ℓ} → Pool → (A → Pool) → Result Error A → Pool
after p f (ok a) = f a
after p f (err e) = p

unfoldable pub step : Pool → Call → Pool
step p allocates = after p (λ r. r.0) (allocate p)
step p (claims a) = after p (λ q. q) (allocate_specific p a)
step p (pins a) = after p (λ q. q) (pin p a)
step p (releases a) = release p a

unfoldable pub run : Pool → List Call → Pool
run p [] = p
run p (c ∷ cs) = run (step p c) cs

pub allocate-IsSound : (p q : Pool) (a : Addr) → IsSound p → allocate p ≡ ok (q, a) → IsSound q
allocate-IsSound p q a s e = by_cases (allocate-Allocates p s.block)
  where
    by_cases : Allocates p (allocate p) → IsSound q
    by_cases (granted j r lo hi g c _ _) =
        let same : r ≡ q = cc in subst IsSound same (Claims-IsSound p r _ s c)
    by_cases (refused g _) = cc

pub allocate_specific-IsSound :
    (p q : Pool) (a : Addr) → IsSound p → allocate_specific p a ≡ ok q → IsSound q
allocate_specific-IsSound p q a s e = Claims-IsSound p q a s (allocate_specific-Claims p q a e)

pin_frame :
    (p q : Pool) (a : Addr)
    → pin p a ≡ ok q
    → (q.prefix ≡ p.prefix) × (q.reserved ≡ p.reserved) × (q.used ≡ p.used)
unfolding pin
pin_frame p q a e = ground arith

pin-IsSound : (p q : Pool) (a : Addr) → IsSound p → pin p a ≡ ok q → IsSound q
pin-IsSound p q a s e =
    let (x, r, u) = pin_frame p q a e in
    record {
      block = rw x s.block;
      distinct = rw u s.distinct;
      marks = rw u s.marks;
      inside = rw (x, u) s.inside;
      unreserved = rw (r, u) s.unreserved;
    }

step-IsSound : (p : Pool) (c : Call) → IsSound p → IsSound (step p c)
unfolding step
step-IsSound p allocates s = keep (allocate p) refl
  where
    keep : (r : Result Error (Pool × Addr)) → allocate p ≡ r → IsSound (after p (λ r. r.0) r)
    keep (ok (q, a)) e = allocate-IsSound p q a s e
    keep (err x) e = s
step-IsSound p (claims a) s = keep (allocate_specific p a) refl
  where
    keep : (r : Result Error Pool) → allocate_specific p a ≡ r → IsSound (after p (λ q. q) r)
    keep (ok q) e = allocate_specific-IsSound p q a s e
    keep (err x) e = s
step-IsSound p (pins a) s = keep (pin p a) refl
  where
    keep : (r : Result Error Pool) → pin p a ≡ r → IsSound (after p (λ q. q) r)
    keep (ok q) e = pin-IsSound p q a s e
    keep (err x) e = s
step-IsSound p (releases a) s = release-IsSound p a s

pub run-IsSound : (p : Pool) (cs : List Call) → IsSound p → IsSound (run p cs)
unfolding run
run-IsSound p [] s = s
run-IsSound p (c ∷ cs) s = run-IsSound (step p c) cs (step-IsSound p c s)

masked_valid :
    (prefix : Prefix) → prefix_is_valid (masked prefix) ≡ true → prefix_is_valid prefix ≡ true
unfolding masked prefix_is_valid
masked_valid prefix h = ground arith

pub create-IsSound :
    (prefix : Prefix) (reserved : List Addr) (p : Pool)
    → InWidth prefix.addr
    → create prefix reserved ≡ ok p
    → IsSound p
unfolding create
create-IsSound prefix reserved p w e =
    let block : IsBlock p.prefix =
      let same : p.prefix ≡ masked prefix = ground arith in
      rw same (masked-IsBlock prefix (masked_valid prefix (ground arith)) w) in
    let none_used : p.used ≡ [] = ground arith in
    record {
      block = block;
      distinct = rw none_used tt;
      marks = rw none_used tt;
      inside = λ a h. ground (arith, ap (has a) none_used, has-nil a);
      unreserved = λ a h. ground (arith, ap (has a) none_used, has-nil a);
    }

-- Whatever prefix, of an address within its width, and whatever reserved addresses `New` accepts,
-- and whatever calls follow, every address in use lies in the prefix and is not reserved, and no
-- address is entered twice.
pub run-create-IsSound :
    (prefix : Prefix) (reserved : List Addr) (p : Pool) (cs : List Call)
    → InWidth prefix.addr
    → create prefix reserved ≡ ok p
    → IsSound (run p cs)
run-create-IsSound prefix reserved p cs w e =
    run-IsSound p cs (create-IsSound prefix reserved p w e)

Claims-in_use : (p q : Pool) (a : Addr) → IsSound p → Claims p q a → in_use q ≡ suc (in_use p)
unfolding in_use
Claims-in_use p q a s c = ground (
  arith,
  ap length c.writes,
  length-insert a true p.used,
  is_some-lookup a p.used s.marks,
  c.fresh,
)

release-in_use :
    (p : Pool) (a : Addr)
    → IsSound p
    → in_use p ≡ (if has a p.used then suc (in_use (release p a)) else in_use (release p a))
unfolding in_use release
release-in_use p a s =
    ground (arith, length-delete a p.used s.distinct, is_some-lookup a p.used s.marks)

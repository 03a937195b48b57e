-- ===== src/Pool/Scan.antt =====
-- The walk of `Allocate` through the prefix: it finds the first free address, and misses none.
use gremlind.Prelude.{
  ℕ, zero, suc, ◌+◌, ◌≤◌, ◌<◌, ◌≡◌, refl, subst, inl, inr, true, false, Option, none, some, arith,
  Bool-cases, dec_lt,
}
use gremlind.Net.{Addr, next}
use gremlind.Net.Blocks.{size, size-pos, host, IsBlock, At, contains-host, next-At, host-zero}
use gremlind.Pool.Defs.{Pool, taken, scan}

-- All the addresses at offsets from `i` up to `j` are taken.
abbrev pub AllTaken : Pool → ℕ → ℕ → Type 0
AllTaken p i j = (k : ℕ) → i ≤ k → k < j → taken p (host p.prefix k) ≡ true

-- What a walk from offset `i` returns.
pub data Finds (p : Pool) (i : ℕ) (r : Option Addr) : Type 0 where
  found :
      (j : ℕ)
      → i ≤ j
      → j < size p.prefix
      → r ≡ some (host p.prefix j)
      → taken p (host p.prefix j) ≡ false
      → AllTaken p i j
      → Finds p i r
  full : r ≡ none → AllTaken p i (size p.prefix) → Finds p i r

AllTaken-suc :
    (p : Pool) (i j : ℕ) → taken p (host p.prefix i) ≡ true → AllTaken p (suc i) j → AllTaken p i j
AllTaken-suc p i j t all k lo hi = elim (dec_lt i k) [
  | yes above ↦ all k above hi
  | no at ↦ let e : k ≡ i = omega arith in rw e t
]

Finds-suc :
    (p : Pool) (i : ℕ) (r : Option Addr)
    → taken p (host p.prefix i) ≡ true
    → Finds p (suc i) r
    → Finds p i r
Finds-suc p i r t (found j lo hi e free all) =
    found j (omega arith) hi e free (AllTaken-suc p i j t all)
Finds-suc p i r t (full e all) = full e (AllTaken-suc p i (size p.prefix) t all)

scan_from :
    (fuel : ℕ) (p : Pool) (i : ℕ) (a : Addr)
    → IsBlock p.prefix
    → At p.prefix i a
    → size p.prefix < i + fuel
    → Finds p i (scan fuel p a)
unfolding scan
scan_from zero p i a b (inl (h, e)) enough = absurd (omega arith)
scan_from zero p i a b (inr (h, out)) enough = full refl (λ k lo hi. absurd (omega arith))
scan_from (suc fuel) p i a b (inr (h, out)) enough =
    rw out (full refl (λ k lo hi. absurd (omega arith)))
scan_from (suc fuel) p i a b (inl (h, e)) enough =
    let inside = contains-host p.prefix i b h in
    let ih =
      scan_from fuel p (suc i) (next (host p.prefix i)) b (next-At p.prefix i b h) (omega arith) in
    rw (e, inside)
      (elim (Bool-cases (taken p (host p.prefix i))) [
        | inl t ↦ rw t (Finds-suc p i _ t ih)
        | inr f ↦ rw f (found i (omega arith) h refl f (λ k lo hi. absurd (omega arith)))
      ])

-- The walk of `allocate`, from offset 1.
pub scan-Finds :
    (p : Pool) → IsBlock p.prefix → Finds p 1 (scan (size p.prefix) p (next p.prefix.addr))
scan-Finds p b =
    scan_from (size p.prefix) p 1 (next p.prefix.addr) b
      (subst (λ a. At p.prefix 1 (next a)) (host-zero p.prefix)
        (next-At p.prefix 0 b (size-pos p.prefix)))
      (omega arith)

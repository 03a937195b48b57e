-- ===== src/Net/Blocks.antt =====
-- The addresses of a masked prefix: one block of consecutive numbers, walked by `next`.
use gremlind.Prelude.{
  ℕ, zero, suc, ◌+◌, ◌-◌, ◌*◌, ◌/◌, ◌^◌, ◌≤◌, ◌<◌, ◌≡◌, refl, sym, ap, ◌∙◌, ◌≢◌, ◌⊎◌, inl, inr,
  true, false, dec_lt, arith, leb,
}
use native.Mathlib.Nat.{
  div-eq_of_lt-le, add-div_right, div-mul-le_self, lt-div-mul-add, one-le-pow, pow-suc,
  mul-div_cancel, div-lt_iff_lt-mul, mul-le-mul_right,
}
use Prim.Native.Nat.add
use gremlind.Net.{
  Addr, invalid, v4, v6, number, width, at_number, next, InWidth, Prefix, host_bits,
  prefix_is_valid, masked, contains,
}

-- The number of addresses of a prefix, and its address at an offset.
abbrev pub size : Prefix → ℕ
size p = 2 ^ host_bits p

abbrev pub host : Prefix → ℕ → Addr
host p i = at_number p.addr (number p.addr + i)

-- A valid prefix whose address is the first of its block.
pub record IsBlock (p : Prefix) : Type 0 where
  pub valid : prefix_is_valid p ≡ true
  pub aligned : number p.addr / size p * size p ≡ number p.addr
  pub fits : number p.addr + size p ≤ 2 ^ width p.addr

-- `a` is the address at offset `i`, or the walk has left the prefix.
abbrev pub At : Prefix → ℕ → Addr → Type 0
At p i a = ((i < size p) × (a ≡ host p i)) ⊎ ((size p ≤ i) × (contains p a ≡ false))

-- Within an aligned block of `s` numbers division by `s` does not change, and behind it it does.
div_in_block : (n s i : ℕ) → n / s * s ≡ n → i < s → (n + i) / s ≡ n / s
div_in_block n s i al h = div-eq_of_lt-le s (omega (arith, al)) (omega (arith, al))

div_behind_block : (n s : ℕ) → n / s * s ≡ n → 0 < s → (n + s) / s ≢ n / s
div_behind_block n s al h = omega (arith, add-div_right n h)

pub contains-host : (p : Prefix) (i : ℕ) → IsBlock p → i < size p → contains p (host p i) ≡ true
unfolding contains prefix_is_valid
contains-host p i b h = on p.addr p.bits b.valid b.aligned h
  where
    on :
        (a : Addr) (bits : ℕ)
        → let q : Prefix = record { addr = a; bits = bits } in
          prefix_is_valid q ≡ true
          → number a / size q * size q ≡ number a
          → i < size q
          → contains q (host q i) ≡ true
    on invalid bits v al h = cc
    on (v4 n) bits v al h = ground (arith, div_in_block n (2 ^ (32 - bits)) i)
    on (v6 n) bits v al h = ground (arith, div_in_block n (2 ^ (128 - bits)) i)

at_number_self : (a : Addr) → at_number a (number a + 0) ≡ a
at_number_self invalid = refl
at_number_self (v4 n) = ap v4 (omega arith)
at_number_self (v6 n) = ap v6 (omega arith)

pub host-zero : (p : Prefix) → host p 0 ≡ p.addr
host-zero p = at_number_self p.addr

pub size-pos : (p : Prefix) → 0 < size p
size-pos p = one-le-pow (host_bits p) 2 (omega arith)

-- Stepping past the last address leaves the prefix.
not-contains-next :
    (p : Prefix) (i : ℕ) → IsBlock p → suc i ≡ size p → contains p (next (host p i)) ≡ false
unfolding contains prefix_is_valid next
not-contains-next p i b h = on p.addr p.bits b.aligned h
  where
    on :
        (a : Addr) (bits : ℕ)
        → let q : Prefix = record { addr = a; bits = bits } in
          number a / size q * size q ≡ number a
          → suc i ≡ size q
          → contains q (next (host q i)) ≡ false
    on invalid bits al h = ground arith
    on (v4 n) bits al h = ground (arith, div_behind_block n (2 ^ (32 - bits)) al (omega arith))
    on (v6 n) bits al h = ground (arith, div_behind_block n (2 ^ (128 - bits)) al (omega arith))

next-host : (p : Prefix) (i : ℕ) → IsBlock p → suc i < size p → next (host p i) ≡ host p (suc i)
unfolding next
next-host p i b h = on p.addr (size p) b.fits h
  where
    on :
        (a : Addr) (s : ℕ)
        → number a + s ≤ 2 ^ width a
        → suc i < s
        → next (at_number a (number a + i)) ≡ at_number a (number a + suc i)
    on invalid s f h = refl
    on (v4 n) s f h = ground arith
    on (v6 n) s f h = ground arith

-- One step of the walk.
pub next-At : (p : Prefix) (i : ℕ) → IsBlock p → i < size p → At p (suc i) (next (host p i))
next-At p i b h = elim (dec_lt (suc i) (size p)) [
  | yes more ↦ inl (more, next-host p i b more)
  | no last ↦ inr (omega arith, not-contains-next p i b (omega arith))
]

same_block :
    (base s n : ℕ) → 0 < s → base / s * s ≡ base → base / s ≡ n / s → (base ≤ n) × (n < base + s)
same_block base s n pos al e =
    let low : n / s * s ≤ n = div-mul-le_self n s in
    let high : n < n / s * s + s = lt-div-mul-add pos in
    let start : n / s * s ≡ base = ap (λ q. q * s) (sym e) ∙ al in
    (omega (arith, low, start), omega (arith, high, start))

-- Every address that the prefix contains stands at one offset of the block.
pub offset_of :
    (p : Prefix) (a : Addr)
    → IsBlock p
    → contains p a ≡ true
    → (i : ℕ) × (i < size p) × (a ≡ host p i)
unfolding contains prefix_is_valid
offset_of p a b h = on p.addr p.bits a b.aligned h
  where
    on :
        (c : Addr) (bits : ℕ) (a : Addr)
        → let q : Prefix = record { addr = c; bits = bits } in
          number c / size q * size q ≡ number c
          → contains q a ≡ true
          → (i : ℕ) × (i < size q) × (a ≡ host q i)
    on (v4 n) bits (v4 m) al h =
        let s = 2 ^ (32 - bits) in
        let facts = same_block n s m (one-le-pow (32 - bits) 2 (omega arith)) al (ground arith) in
        (m - n, omega (arith, facts), ap v4 (omega (arith, facts)))
    on (v6 n) bits (v6 m) al h =
        let s = 2 ^ (128 - bits) in
        let facts = same_block n s m (one-le-pow (128 - bits) 2 (omega arith)) al (ground arith) in
        (m - n, omega (arith, facts), ap v6 (omega (arith, facts)))
    on (v4 n) bits c al h = absurd (ground arith)
    on (v6 n) bits c al h = absurd (ground arith)
    on invalid bits c al h = absurd (ground arith)

pow_split : (a b : ℕ) → 2 ^ (a + b) ≡ 2 ^ a * 2 ^ b
pow_split zero b = rw add.zero (omega arith)
pow_split (suc a) b =
    rw add.suc (pow-suc 2 (a + b) ∙ omega (arith, pow_split a b, ap (λ t. t * 2 ^ b) (pow-suc 2 a)))

block_start : (n s : ℕ) → 0 < s → n / s * s / s * s ≡ n / s * s
block_start n s pos = rw (mul-div_cancel (n / s) pos)

block_fits : (n s t : ℕ) → 0 < s → n < s * t → n / s * s + s ≤ s * t
block_fits n s t pos h =
    let q : n / s < t = (div-lt_iff_lt-mul pos).1 (omega (arith, h)) in
    omega (arith, mul-le-mul_right s q)

-- The constructor's prefix is a block whatever address it was given by.
pub masked-IsBlock : (p : Prefix) → prefix_is_valid p ≡ true → InWidth p.addr → IsBlock (masked p)
unfolding masked prefix_is_valid
masked-IsBlock p v w = on p.addr p.bits v w
  where
    fits :
        (n total bits : ℕ)
        → leb bits total ≡ true
        → n < 2 ^ total
        → n / 2 ^ (total - bits) * 2 ^ (total - bits) + 2 ^ (total - bits) ≤ 2 ^ total
    fits n total bits l h =
        let split : 2 ^ total ≡ 2 ^ (total - bits) * 2 ^ bits =
          rw (← pow_split (total - bits) bits) (ap (λ k. 2 ^ k) (ground arith)) in
        rw split (
          block_fits n (2 ^ (total - bits)) (2 ^ bits) (one-le-pow (total - bits) 2 (omega arith))
            (rw split at h))

    on :
        (a : Addr) (bits : ℕ)
        → let q : Prefix = record { addr = a; bits = bits } in
          prefix_is_valid q ≡ true → InWidth a → IsBlock (masked q)
    on invalid bits v w = cc
    on (v4 n) bits v w = rw v (record {
      valid = v;
      aligned = block_start n (2 ^ (32 - bits)) (one-le-pow (32 - bits) 2 (omega arith));
      fits = fits n 32 bits v w;
    })
    on (v6 n) bits v w = rw v (record {
      valid = v;
      aligned = block_start n (2 ^ (128 - bits)) (one-le-pow (128 - bits) 2 (omega arith));
      fits = fits n 128 bits v w;
    })

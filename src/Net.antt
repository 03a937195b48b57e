-- ===== src/Net.antt =====
-- What the program uses of Go's net/netip: addresses without a zone and prefixes of them.
pub mod Blocks
pub mod Predicates
use gremlind.Prelude.{
  ℕ, zero, suc, ◌+◌, ◌-◌, ◌*◌, ◌/◌, ◌%◌, ◌^◌, ◌≤◌, ◌<◌, ◌≡◌, refl, ◌↔◌, Bool, true, false, ◌&&◌,
  not, arith, ltb, leb, nat_eqb, nat_eqb_iff, Key, if◌then◌else◌,
}

-- `netip.Addr`: the zero value, a 32-bit address or a 128-bit one (an IPv4-mapped one included).
pub data Addr : Type 0 where
  invalid : Addr
  v4 : ℕ → Addr
  v6 : ℕ → Addr

abbrev pub is_valid : Addr → Bool
is_valid invalid = false
is_valid (v4 n) = true
is_valid (v6 n) = true

abbrev pub is4 : Addr → Bool
is4 invalid = false
is4 (v4 n) = true
is4 (v6 n) = false

abbrev pub is6 : Addr → Bool
is6 invalid = false
is6 (v4 n) = false
is6 (v6 n) = true

-- The address as a number, and the width of its family in bits.
abbrev pub number : Addr → ℕ
number invalid = 0
number (v4 n) = n
number (v6 n) = n

abbrev pub width : Addr → ℕ
width invalid = 0
width (v4 n) = 32
width (v6 n) = 128

-- An address of the same family at another number.
abbrev pub at_number : Addr → ℕ → Addr
at_number invalid n = invalid
at_number (v4 _) n = v4 n
at_number (v6 _) n = v6 n

-- `Addr.Next`: past the highest address of the family it is the zero value.
unfoldable pub next : Addr → Addr
next invalid = invalid
next (v4 n) = if ltb (n + 1) (2 ^ 32) then v4 (n + 1) else invalid
next (v6 n) = if ltb (n + 1) (2 ^ 128) then v6 (n + 1) else invalid

abbrev pub InWidth : Addr → Type 0
InWidth a = number a < 2 ^ width a

abbrev pub addr_eqb : Addr → Addr → Bool
addr_eqb invalid invalid = true
addr_eqb (v4 n) (v4 m) = nat_eqb n m
addr_eqb (v6 n) (v6 m) = nat_eqb n m
addr_eqb _ _ = false

pub addr_eqb_iff : (a b : Addr) → (addr_eqb a b ≡ true) ↔ (a ≡ b)
addr_eqb_iff invalid invalid = (λ _. refl, λ _. refl)
addr_eqb_iff (v4 n) (v4 m) = ground arith
addr_eqb_iff (v6 n) (v6 m) = ground arith
addr_eqb_iff a b = ground arith

instance abbrev pub addr_eq : Key Addr
addr_eq = record { same = addr_eqb; decides = addr_eqb_iff }

-- `netip.Prefix`: an address and the number of its high bits that are fixed, `Bits()`.
pub record Prefix : Type 0 where
  pub addr : Addr
  pub bits : ℕ

abbrev pub host_bits : Prefix → ℕ
host_bits p = width p.addr - p.bits

-- `Prefix.IsValid`
unfoldable pub prefix_is_valid : Prefix → Bool
prefix_is_valid p = is_valid p.addr && leb p.bits (width p.addr)

-- `Prefix.Masked`: the low bits cleared; the zero prefix if it is not valid.
unfoldable pub masked : Prefix → Prefix
unfolding prefix_is_valid
masked p =
    if prefix_is_valid p
    then record p { addr = at_number p.addr (number p.addr / 2 ^ host_bits p * 2 ^ host_bits p) }
    else record { addr = invalid; bits = 0 }

-- `Prefix.Contains`: the same family and the same high bits.
unfoldable pub contains : Prefix → Addr → Bool
unfolding prefix_is_valid
contains p a =
    prefix_is_valid p
    && is_valid a
    && nat_eqb (width p.addr) (width a)
    && nat_eqb (number p.addr / 2 ^ host_bits p) (number a / 2 ^ host_bits p)

-- ===== src/Gre/Netlink/Words.antt =====
-- Words in the host's byte order, `native` of internal/gre/netlink_linux.go.
use gremlind.Prelude.{
  ℕ, zero, suc, ◌+◌, ◌*◌, ◌/◌, ◌%◌, ◌^◌, ◌<◌, ◌≡◌, refl, ap, [], ◌∷◌, length, arith,
}
use native.Mathlib.Nat.{pow-suc}
use gremlind.Prelude.Bytes.{Bytes, be_bytes, be_value, be_value-be_bytes, length-be_bytes}

pub data Endian : Type 0 where
  little big : Endian

-- The `k` bytes of a word, the lowest first.
unfoldable pub le_bytes : ℕ → ℕ → Bytes
le_bytes zero n = []
le_bytes (suc k) n = n % 256 ∷ le_bytes k (n / 256)

unfoldable pub le_value : Bytes → ℕ
le_value [] = 0
le_value (b ∷ bs) = b + 256 * le_value bs

-- `native.PutUint16` and `native.PutUint32` by the number of bytes.
unfoldable pub native_bytes : Endian → ℕ → ℕ → Bytes
unfolding le_bytes
native_bytes little k n = le_bytes k n
native_bytes big k n = be_bytes k n

-- `native.Uint16` and `native.Uint32`
unfoldable pub native_value : Endian → Bytes → ℕ
unfolding le_value
native_value little bs = le_value bs
native_value big bs = be_value bs

pub length-le_bytes : (k n : ℕ) → length (le_bytes k n) ≡ k
unfolding le_bytes
length-le_bytes zero n = refl
length-le_bytes (suc k) n = ap (λ (m : ℕ). suc m) (length-le_bytes k (n / 256))

pub le_value-le_bytes : (k n : ℕ) → n < 256 ^ k → le_value (le_bytes k n) ≡ n
unfolding le_bytes le_value
le_value-le_bytes zero n h = omega arith
le_value-le_bytes (suc k) n h =
    omega (arith, le_value-le_bytes k (n / 256) (omega (arith, pow-suc 256 k)))

pub length-native_bytes : (e : Endian) (k n : ℕ) → length (native_bytes e k n) ≡ k
unfolding native_bytes
length-native_bytes little k n = length-le_bytes k n
length-native_bytes big k n = length-be_bytes k n

pub native_value-native_bytes :
    (e : Endian) (k n : ℕ) → n < 256 ^ k → native_value e (native_bytes e k n) ≡ n
unfolding native_bytes native_value
native_value-native_bytes little k n h = le_value-le_bytes k n h
native_value-native_bytes big k n h = be_value-be_bytes k n h

-- ===== src/Prelude/Bytes.antt =====
-- Byte sequences and encoding/binary's big-endian words.
use Prim.Native.Nat.{ℕ, zero, suc, ◌+◌, ◌*◌, ◌/◌, ◌%◌, ◌^◌, ◌≤◌, ◌<◌}
use Prim.Native.Nat.add
use mathlib.Core.Path.{◌≡◌, refl}
use mathlib.Core.List.{List, [], ◌∷◌, ◌++◌, append-nil, append_assoc}
use native.Mathlib.Nat.{add-zero, pow-suc, mul-le-mul_right, le_trans}
use native.Mathlib.Omega.{arith}
use gremlind.Prelude.Lists.{length, length-append, All, All-append}

abbrev pub Bytes : Type 0
Bytes = List ℕ

abbrev pub IsByte : ℕ → Type 0
IsByte b = b < 256

-- The `k` bytes of a word, the highest first.
unfoldable pub be_bytes : ℕ → ℕ → Bytes
be_bytes zero n = []
be_bytes (suc k) n = be_bytes k (n / 256) ++ n % 256 ∷ []

unfoldable pub be_value_from : ℕ → Bytes → ℕ
be_value_from acc [] = acc
be_value_from acc (b ∷ bs) = be_value_from (acc * 256 + b) bs

-- The word that a byte sequence spells, the highest byte first.
unfoldable pub be_value : Bytes → ℕ
unfolding be_value_from
be_value = be_value_from 0

pub length-be_bytes : (k n : ℕ) → length (be_bytes k n) ≡ k
unfolding be_bytes
length-be_bytes zero n = refl
length-be_bytes (suc k) n =
    omega (arith, length-append (be_bytes k (n / 256)) (n % 256 ∷ []), length-be_bytes k (n / 256))

pub be_bytes-IsByte : (k n : ℕ) → All IsByte (be_bytes k n)
unfolding be_bytes
be_bytes-IsByte zero n = tt
be_bytes-IsByte (suc k) n =
    All-append IsByte _ (n % 256 ∷ []) (be_bytes-IsByte k (n / 256)) (omega arith)

be_value_from-snoc :
    (acc : ℕ) (bs : Bytes) (b : ℕ)
    → be_value_from acc (bs ++ b ∷ []) ≡ be_value_from acc bs * 256 + b
unfolding be_value_from
be_value_from-snoc acc [] b = refl
be_value_from-snoc acc (c ∷ bs) b = be_value_from-snoc (acc * 256 + c) bs b

-- A word that fits its width is read back.
pub be_value-be_bytes : (k n : ℕ) → n < 256 ^ k → be_value (be_bytes k n) ≡ n
unfolding be_bytes be_value
be_value-be_bytes zero n h = omega arith
be_value-be_bytes (suc k) n h =
    rw (be_value_from-snoc 0 (be_bytes k (n / 256)) (n % 256))
      (omega (arith, be_value-be_bytes k (n / 256) (omega (arith, pow-suc 256 k))))

be_bytes-be_value_from :
    (j acc : ℕ) (bs : Bytes)
    → All IsByte bs
    → be_bytes (length bs + j) (be_value_from acc bs) ≡ be_bytes j acc ++ bs
unfolding be_value_from be_bytes
be_bytes-be_value_from j acc [] h = rw (add.zero, append-nil)
be_bytes-be_value_from j acc (b ∷ bs) h =
    let shift : suc (length bs) + j ≡ length bs + suc j = omega arith in
    let high : (acc * 256 + b) / 256 ≡ acc = omega arith in
    let low : (acc * 256 + b) % 256 ≡ b = omega arith in
    rw (shift, be_bytes-be_value_from (suc j) (acc * 256 + b) bs h.1, be_bytes, high, low)
      (append_assoc (be_bytes j acc) (b ∷ []) bs)

-- A byte sequence is the word that it spells, written out.
pub be_bytes-be_value : (bs : Bytes) → All IsByte bs → be_bytes (length bs) (be_value bs) ≡ bs
unfolding be_value be_bytes
be_bytes-be_value bs h = rw (add-zero (length bs)) at (be_bytes-be_value_from 0 0 bs h)

be_value_from-lt :
    (acc : ℕ) (bs : Bytes) → All IsByte bs → be_value_from acc bs < (acc + 1) * 256 ^ length bs
unfolding be_value_from
be_value_from-lt acc [] h = omega arith
be_value_from-lt acc (b ∷ bs) h =
    let room : acc * 256 + b + 1 ≤ (acc + 1) * 256 = omega arith in
    let ih = be_value_from-lt (acc * 256 + b) bs h.1 in
    let bound = mul-le-mul_right (256 ^ length bs) room in
    rw (pow-suc 256 (length bs)) (le_trans ih (omega (arith, bound)))

pub be_value-lt : (bs : Bytes) → All IsByte bs → be_value bs < 256 ^ length bs
unfolding be_value
be_value-lt bs h = omega (arith, be_value_from-lt 0 bs h)

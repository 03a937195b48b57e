-- ===== src/Gre/Naming.antt =====
-- The default interface names of internal/session/manager.go in the namespace of internal/gre/name.go.
use gremlind.Prelude.{
  ℕ, zero, suc, ◌+◌, ◌-◌, ◌*◌, ◌/◌, ◌%◌, ◌^◌, ◌<◌, ◌≤◌, ◌≡◌, refl, sym, ap, ◌∙◌, true, false, [],
  ◌∷◌, ◌⊎◌, inl, inr, length, ltb, ◌==◌, nat_eq, list_eq, arith, Bool-cases, if◌then◌else◌,
}
use gremlind.Prelude.Bytes.{Bytes}
use gremlind.Gre.Names.{
  valid_name, is_alphanumeric, name_chars, is_hex_digit, hex_digits, grem, cut_grem,
  is_generated_name, hex_digit, hex, if_name,
}

-- The digits read back.
digit_value : ℕ → ℕ
digit_value d = if ltb d b'a' then d - b'0' else d - b'a' + 10

read_hex : Bytes → ℕ → ℕ
unfolding digit_value
read_hex [] n = n
read_hex (d ∷ s) n = read_hex s (n * 16 + digit_value d)

digit_value-hex_digit : (d : ℕ) → d < 16 → digit_value (hex_digit d) ≡ d
unfolding digit_value
digit_value-hex_digit d lt = ground arith

hex_digit-IsDigit : (d : ℕ) → d < 16 → is_hex_digit (hex_digit d) ≡ true
unfolding is_hex_digit
hex_digit-IsDigit d lt = ground arith

upper : (fuel n : ℕ) → n < 16 ^ suc fuel → n / 16 < 16 ^ fuel
upper fuel n lt = omega (arith, lt)

rebuild : (n : ℕ) → n / 16 * 16 + n % 16 ≡ n
rebuild n = omega arith

read-hex : (fuel n : ℕ) (out : Bytes) → n < 16 ^ fuel → read_hex (hex fuel n out) 0 ≡ read_hex out n
unfolding read_hex hex
read-hex zero n out lt = ap (read_hex out) (omega arith)
read-hex (suc fuel) n out lt = ground (
  arith,
  read-hex fuel (n / 16) (hex_digit (n % 16) ∷ out) (upper fuel n lt),
  digit_value-hex_digit n,
  digit_value-hex_digit (n % 16) (omega arith),
  ap (read_hex out) (rebuild n),
  ap (λ d. read_hex out (n / 16 * 16 + d)) (digit_value-hex_digit (n % 16) (omega arith)),
)

hex-digits : (fuel n : ℕ) (out : Bytes) → hex_digits out ≡ true → hex_digits (hex fuel n out) ≡ true
unfolding hex_digits hex
hex-digits zero n out h = h
hex-digits (suc fuel) n out h =
    let low = hex_digit-IsDigit (n % 16) (omega arith) in
    ground (
      arith,
      h,
      hex_digit-IsDigit n,
      hex-digits fuel (n / 16) (hex_digit (n % 16) ∷ out) (rw low h),
    )

length-hex :
    (fuel n : ℕ) (out : Bytes)
    → (length (hex fuel n out) ≤ fuel + length out) × (length out ≤ length (hex fuel n out))
unfolding hex
length-hex zero n out = (omega arith, omega arith)
length-hex (suc fuel) n out =
    let rest = length-hex fuel (n / 16) (hex_digit (n % 16) ∷ out) in ground (arith, rest)

hex_digit-alphanumeric : (d : ℕ) → is_hex_digit d ≡ true → is_alphanumeric d ≡ true
unfolding is_hex_digit is_alphanumeric
hex_digit-alphanumeric d h = ground (arith, h)

digits-name_chars : (i : ℕ) (s : Bytes) → hex_digits s ≡ true → name_chars i s ≡ true
unfolding hex_digits name_chars
digits-name_chars i [] h = refl
digits-name_chars i (d ∷ s) h =
    ground (arith, h, hex_digit-alphanumeric d, digits-name_chars (suc i) s)

grem-name_chars : (s : Bytes) → hex_digits s ≡ true → name_chars 0 (grem s) ≡ true
unfolding name_chars is_alphanumeric
grem-name_chars s h = digits-name_chars 4 s h

generated : (s : Bytes) → hex_digits s ≡ true → 1 ≤ length s → is_generated_name (grem s) ≡ true
unfolding is_generated_name cut_grem
generated [] h n = refl
generated (d ∷ s) h n = ground (arith, h)

if_name_zero : (k : ℕ) → k == 0 ≡ true → if_name k ≡ grem []
unfolding if_name
if_name_zero k h = rw h refl

if_name_pos : (k : ℕ) → k == 0 ≡ false → if_name k ≡ grem (hex 8 k [])
unfolding if_name
if_name_pos k h = rw h refl

hex-nonempty : (k : ℕ) → 1 ≤ length (hex 8 k [])
unfolding hex
hex-nonempty k = let rest = length-hex 7 (k / 16) (hex_digit (k % 16) ∷ []) in ground (arith, rest)

generated_grem : is_generated_name (grem []) ≡ true
unfolding is_generated_name
generated_grem = refl

named_grem : valid_name (grem []) ≡ true
unfolding valid_name is_alphanumeric
named_grem = refl

named : (s : Bytes) → hex_digits s ≡ true → length s ≤ 8 → valid_name (grem s) ≡ true
unfolding valid_name
named s h n = ground (arith, grem-name_chars s h, n)

-- Every session key has a default interface name that Linux takes and that lies in the generated
-- namespace, from which the configuration may not pin a name.
pub if_name-valid :
    (k : ℕ) → (is_generated_name (if_name k) ≡ true) × (valid_name (if_name k) ≡ true)
if_name-valid k = elim (Bool-cases (k == 0)) [
  | inl none_set ↦ rw (if_name_zero k none_set) (generated_grem, named_grem)
  | inr set ↦
      let digits = hex-digits 8 k [] (unfold hex_digits in refl) in
      rw (if_name_pos k set)
        (generated _ digits (hex-nonempty k), named _ digits (length-hex 8 k []).0)
]

hex-injective : (j k : ℕ) → j < 2 ^ 32 → k < 2 ^ 32 → hex 8 j [] ≡ hex 8 k [] → j ≡ k
unfolding read_hex
hex-injective j k jl kl same =
    sym (read-hex 8 j [] jl) ∙ ap (λ s. read_hex s 0) same ∙ read-hex 8 k [] kl

grem-injective : (s t : Bytes) → grem s ≡ grem t → s ≡ t
grem-injective s t h = cc

empty-hex : (k : ℕ) → grem [] ≡ grem (hex 8 k []) → ⊥
empty-hex k h =
    let n : length (hex 8 k []) ≡ 0 = ap length (sym (grem-injective [] (hex 8 k []) h)) in
    let some_digit = hex-nonempty k in omega (arith, n, some_digit)

-- Two 32-bit keys with the same default interface name are the same key.
pub if_name-injective : (j k : ℕ) → j < 2 ^ 32 → k < 2 ^ 32 → if_name j ≡ if_name k → j ≡ k
if_name-injective j k jl kl same = by_cases (Bool-cases (j == 0)) (Bool-cases (k == 0))
  where
    by_cases : (j == 0 ≡ true) ⊎ (j == 0 ≡ false) → (k == 0 ≡ true) ⊎ (k == 0 ≡ false) → j ≡ k
    by_cases (inl x) (inl y) = (nat_eq.decides j 0).0 x ∙ sym ((nat_eq.decides k 0).0 y)
    by_cases (inl x) (inr y) =
        absurd (empty-hex k (sym (if_name_zero j x) ∙ same ∙ if_name_pos k y))
    by_cases (inr x) (inl y) =
        absurd (empty-hex j (sym (if_name_zero k y) ∙ sym same ∙ if_name_pos j x))
    by_cases (inr x) (inr y) =
        hex-injective j k jl kl
          (grem-injective _ _ (sym (if_name_pos j x) ∙ same ∙ if_name_pos k y))

-- ===== src/Gre/Names.antt =====
-- internal/gre/name.go, and the naming of sessions in internal/session/manager.go. Names are byte
-- strings. The loops range over runes; a byte from 128 on belongs to a rune that no case admits.
use gremlind.Prelude.{
  ℕ, zero, suc, ◌+◌, ◌-◌, ◌/◌, ◌%◌, Bool, true, false, ◌&&◌, ◌||◌, [], ◌∷◌, Option, none, some,
  length, ltb, leb, ◌==◌, nat_eq, list_eq, if◌then◌else◌,
}
use gremlind.Prelude.Bytes.{Bytes}

abbrev pub max_name_len : ℕ
max_name_len = 15

unfoldable pub is_alphanumeric : ℕ → Bool
is_alphanumeric r = leb b'a' r && leb r b'z' || leb b'A' r && leb r b'Z' || leb b'0' r && leb r b'9'

-- The loop of `ValidName`, at position `i`.
unfoldable pub name_chars : ℕ → Bytes → Bool
unfolding is_alphanumeric
name_chars i [] = true
name_chars i (r ∷ s) =
    (is_alphanumeric r || (r == b'_' || r == b'-') && ltb 0 i) && name_chars (suc i) s

-- `ValidName`
unfoldable pub valid_name : Bytes → Bool
unfolding name_chars
valid_name name =
    if length name == 0 || ltb max_name_len (length name) then false else name_chars 0 name

unfoldable pub is_hex_digit : ℕ → Bool
is_hex_digit r = leb b'0' r && leb r b'9' || leb b'a' r && leb r b'f'

-- The loop of `IsGeneratedName`.
unfoldable pub hex_digits : Bytes → Bool
unfolding is_hex_digit
hex_digits [] = true
hex_digits (r ∷ s) = is_hex_digit r && hex_digits s

-- "grem"
abbrev pub grem : Bytes → Bytes
grem rest = b'g' ∷ b'r' ∷ b'e' ∷ b'm' ∷ rest

-- `strings.CutPrefix(name, "grem")`
unfoldable pub cut_grem : Bytes → Option Bytes
cut_grem (g ∷ r ∷ e ∷ m ∷ rest) =
    if g == b'g' && r == b'r' && e == b'e' && m == b'm' then some rest else none
cut_grem _ = none

abbrev pub generated_rest : Option Bytes → Bool
generated_rest none = false
generated_rest (some []) = false
generated_rest (some (r ∷ rest)) = hex_digits (r ∷ rest)

-- `IsGeneratedName`
unfoldable pub is_generated_name : Bytes → Bool
unfolding hex_digits cut_grem
is_generated_name name =
    if name == grem [] || name == grem (b'0' ∷ []) then true else generated_rest (cut_grem name)

-- `fmt.Sprintf("%x", key)`: the digits without leading zeros, on fuel.
abbrev pub hex_digit : ℕ → ℕ
hex_digit d = if ltb d 10 then b'0' + d else b'a' + (d - 10)

unfoldable pub hex : ℕ → ℕ → Bytes → Bytes
hex zero n out = out
hex (suc fuel) n out =
    let more = hex fuel (n / 16) (hex_digit (n % 16) ∷ out) in
    if ltb n 16 then hex_digit n ∷ out else more

-- `ifName`. A key is a uint32, which has 8 digits at most.
unfoldable pub if_name : ℕ → Bytes
unfolding hex
if_name key = if key == 0 then grem [] else grem (hex 8 key [])

-- ===== src/Prelude/Texts.antt =====
-- Go string literals as byte sequences, and the texts of numbers.
use Prim.Native.Char.{code}
use Prim.Native.String.{String}
use Prim.Native.Nat.{ℕ, zero, suc, ◌+◌, ◌/◌, ◌%◌}
use mathlib.Core.List.{[], ◌∷◌}
use gremlind.Prelude.Tests.{ltb, if◌then◌else◌}
use gremlind.Prelude.Bytes.{Bytes}

-- The bytes of an ASCII literal.
abbrev pub ascii : String → Bytes
ascii String.[] = []
ascii (String.◌∷◌ first rest) = code first ∷ ascii rest

-- `strconv.Itoa` of a number of 20 digits at most.
unfoldable pub digits_onto : ℕ → ℕ → Bytes → Bytes
digits_onto zero n out = out
digits_onto (suc fuel) n out =
    let more = digits_onto fuel (n / 10) ((b'0' + n % 10) ∷ out) in
    if ltb n 10 then (b'0' + n) ∷ out else more

unfoldable pub itoa : ℕ → Bytes
unfolding digits_onto
itoa n = digits_onto 20 n []

-- ===== src/Control/Codec/Fields.antt =====
-- What the encoder of internal/control/codec.go appends for a field is what the grammar reads back,
-- and nothing else is.
use mathlib.Core.List.{append_assoc}
use gremlind.Prelude.{
  ℕ, ◌%◌, ◌^◌, ◌<◌, ◌≡◌, refl, some, ◌++◌, arith, length, length-append, take-append, drop-append,
  nat_eq, not-lt→ltb,
}
use gremlind.Prelude.Bytes.{Bytes, be_bytes, length-be_bytes, be_value-be_bytes}
use gremlind.Net.{Addr, InWidth, invalid, v4, v6}
use gremlind.Control.Proto.{Short}
use gremlind.Control.Codec.Encoder.{enc_str, enc_bytes, enc_addr}
use gremlind.Control.Codec.Grammar.{Parser, run, word, text, addr, addr_of}

-- The bytes of a field.
unfoldable pub text_bytes : Bytes → Bytes
text_bytes s = be_bytes 2 (length s) ++ s

unfoldable pub addr_bytes : Addr → Bytes
addr_bytes invalid = be_bytes 1 0
addr_bytes (v4 n) = be_bytes 1 4 ++ be_bytes 4 n
addr_bytes (v6 n) = be_bytes 1 16 ++ be_bytes 16 n

pub enc_str-text_bytes : (b s : Bytes) → Short s → enc_str b s ≡ b ++ text_bytes s
unfolding enc_str text_bytes
enc_str-text_bytes b s h =
    let fits : length s % 2 ^ 16 ≡ length s = omega arith in
    rw fits (append_assoc b (be_bytes 2 (length s)) s)

pub enc_bytes-text_bytes : (b s : Bytes) → Short s → enc_bytes b s ≡ b ++ text_bytes s
unfolding enc_bytes enc_str
enc_bytes-text_bytes b s h = enc_str-text_bytes b s h

pub enc_addr-addr_bytes : (b : Bytes) (a : Addr) → enc_addr b a ≡ b ++ addr_bytes a
unfolding enc_addr addr_bytes
enc_addr-addr_bytes b invalid = refl
enc_addr-addr_bytes b (v4 n) =
    rw (length-be_bytes 4 n) (append_assoc b (be_bytes 1 4) (be_bytes 4 n))
enc_addr-addr_bytes b (v6 n) =
    rw (length-be_bytes 16 n) (append_assoc b (be_bytes 1 16) (be_bytes 16 n))

run-append : (n : ℕ) (bs rest : Bytes) → length bs ≡ n → run n (bs ++ rest) ≡ some (bs, rest)
unfolding run
run-append n bs rest e =
    rw (not-lt→ltb (length (bs ++ rest)) n (omega (arith, length-append bs rest)), ← e)
      (rw (take-append bs rest, drop-append bs rest))

-- A field `v` of well-formed values: what follows the bytes `out` is left over.
abbrev pub Reads : {A : Type 0} → Parser A → Bytes → A → Type 0
Reads p out v = (rest : Bytes) → p (out ++ rest) ≡ some (v, rest)

pub word-be_bytes : (k v : ℕ) → v < 256 ^ k → Reads (word k) (be_bytes k v) v
unfolding word
word-be_bytes k v h rest =
    rw (run-append k (be_bytes k v) rest (length-be_bytes k v), be_value-be_bytes k v h)

pub run-Reads : (s : Bytes) → Reads (run (length s)) s s
run-Reads s rest = run-append (length s) s rest refl

pub text-text_bytes : (s : Bytes) → Short s → Reads text (text_bytes s) s
unfolding text text_bytes
text-text_bytes s h rest =
    rw
      (
        append_assoc (be_bytes 2 (length s)) s rest,
        word-be_bytes 2 (length s) (omega (arith, h.0)) (s ++ rest),
      )
      (run-append (length s) s rest refl)

pub addr-addr_bytes : (a : Addr) → InWidth a → Reads addr (addr_bytes a) a
unfolding addr addr_bytes addr_of
addr-addr_bytes invalid h rest = rw (word-be_bytes 1 0 (omega arith) rest)
addr-addr_bytes (v4 n) h rest = rw (
  append_assoc (be_bytes 1 4) (be_bytes 4 n) rest,
  word-be_bytes 1 4 (omega arith) (be_bytes 4 n ++ rest),
  word-be_bytes 4 n (omega arith) rest,
)
addr-addr_bytes (v6 n) h rest = rw (
  append_assoc (be_bytes 1 16) (be_bytes 16 n) rest,
  word-be_bytes 1 16 (omega arith) (be_bytes 16 n ++ rest),
  word-be_bytes 16 n (omega arith) rest,
)

-- ===== src/Control/Codec/Refinement.antt =====
-- The cursor with its sticky error implements the grammar.
use gremlind.Control.Codec.Cursor.{
  Refines, Refines-pure, Refines-bind, Refines-word, Refines-reader, reader, parser,
}
use gremlind.Prelude.{
  not, ◌&&◌, suc, zero, subst, ◌≢◌, ne→nat_eqb, ℕ_discrete, ℕ, ◌≡◌, refl, sym, dec_lt, lt→ltb,
  not-lt→ltb, [], some, arith, length, take, length-take, ◌==◌, nat_eq, Option-cases, inl, inr,
  if◌then◌else◌,
}
use gremlind.Prelude.Bytes.{Bytes, be_value}
use gremlind.Net.{Addr, invalid, v4, v6}
use gremlind.Control.Codec.Decoder
use gremlind.Control.Codec.Decoder.{
  DecBuf, Decoder, Error, dec_word, dec_u8, dec_u16, dec_u32, dec_run, dec_str, dec_bytes, dec_addr,
  need, fail, slice, advance, unmarshal_binary, fields, finish, start, unmarshal_payload,
}
use gremlind.Control.Codec.Grammar
use gremlind.Control.Codec.Grammar.{Parser, run, word, text, addr, addr_of, payload, bind_parsed}

run-pure : (n : ℕ) (s : Bytes) → bind_parsed (run n s) Grammar.pure ≡ run n s
run-pure n s = elim (Option-cases (run n s)) [ inl e ↦ rw e | inr (r, e) ↦ rw e ]

Refines-run : (n : ℕ) → Refines (dec_run n) (run n)
unfolding dec_run
Refines-run n =
    let r = Refines-reader n (λ (s : Bytes). s) [] in
    record { sticky = r.sticky; agrees = λ d s h. rw (run-pure n s) at (r.agrees d s h) }

pub Refines-str : Refines dec_str text
unfolding dec_str text
Refines-str = Refines-bind dec_u16 (word 2) dec_run run (Refines-word 2) Refines-run

advance-zero : (d : DecBuf) → advance 0 d ≡ d
advance-zero d = ground arith

-- What `bytes` does behind the length.
abbrev dec_bytes_of : ℕ → Decoder Bytes
dec_bytes_of n d =
    let (there, d) = need n d in
    if not there then ([], d) else if n == 0 then ([], d) else (slice d n, advance n d)

-- The test for an empty run changes nothing.
dec_bytes_of-dec_run : (n : ℕ) (d : DecBuf) → dec_bytes_of n d ≡ dec_run n d
unfolding dec_run
dec_bytes_of-dec_run zero d = ground (arith, advance-zero (need 0 d).1)
dec_bytes_of-dec_run (suc n) d = ground arith

dec_bytes-dec_str : (d : DecBuf) → dec_bytes d ≡ dec_str d
unfolding dec_bytes dec_str
dec_bytes-dec_str d = dec_bytes_of-dec_run (dec_u16 d).0 (dec_u16 d).1

pub Refines-bytes : Refines dec_bytes text
Refines-bytes = record {
  sticky = λ d h. rw (dec_bytes-dec_str d) (Refines-str.sticky d h);
  agrees = λ d s h. rw (dec_bytes-dec_str d) (Refines-str.agrees d s h);
}

-- What `addr` does behind the length.
abbrev dec_addr_of : ℕ → Decoder Addr
dec_addr_of n d =
    if n == 0
    then (invalid, d)
    else if not (n == 4) && not (n == 16)
    then (invalid, record d { failure = some (Decoder.invalid_address_length n) })
    else let (there, d) = need n d in
      if there then (unmarshal_binary (slice d n), advance n d) else (invalid, d)

short_addr :
    (n : ℕ) (c : ℕ → Addr) (s : Bytes)
    → ((bs : Bytes) → length bs ≡ n → unmarshal_binary bs ≡ c (be_value bs))
    → bind_parsed (word n s) (λ k. Grammar.pure (c k)) ≡ parser n unmarshal_binary invalid s
unfolding word run
short_addr n c s e = elim (dec_lt (length s) n) [
  | yes short ↦ rw (lt→ltb (length s) n short)
  | no long ↦ rw (not-lt→ltb (length s) n long, e (take n s) (omega (arith, length-take n s)))
]

unmarshal_binary_4 : (bs : Bytes) → length bs ≡ 4 → unmarshal_binary bs ≡ v4 (be_value bs)
unfolding unmarshal_binary
unmarshal_binary_4 bs e = rw e

unmarshal_binary_16 : (bs : Bytes) → length bs ≡ 16 → unmarshal_binary bs ≡ v6 (be_value bs)
unfolding unmarshal_binary
unmarshal_binary_16 bs e = rw e

-- An address of a length that has one.
Refines-full_addr :
    (n : ℕ) (c : ℕ → Addr)
    → ((bs : Bytes) → length bs ≡ n → unmarshal_binary bs ≡ c (be_value bs))
    → Refines
        (reader n unmarshal_binary invalid)
        (λ s. bind_parsed (word n s) (λ k. Grammar.pure (c k)))
Refines-full_addr n c e =
    let r = Refines-reader n unmarshal_binary invalid in
    record { sticky = r.sticky; agrees = λ d s h. rw (short_addr n c s e) (r.agrees d s h) }

Refines-other_addr : (n : ℕ) → n ≢ 0 → n ≢ 4 → n ≢ 16 → Refines (dec_addr_of n) (addr_of n)
unfolding addr_of
Refines-other_addr n h0 h4 h16 =
    let e0 = ne→nat_eqb n 0 h0 in
    let e4 = ne→nat_eqb n 4 h4 in
    let e16 = ne→nat_eqb n 16 h16 in
    record { sticky = λ d h. rw (e0, e4, e16) refl; agrees = λ d s h. rw (e0, e4, e16) refl }

Refines-addr_of : (n : ℕ) → Refines (dec_addr_of n) (addr_of n)
unfolding addr_of
Refines-addr_of n = elim (ℕ_discrete n 0) [
  | yes e ↦ subst (λ k. Refines (dec_addr_of k) (addr_of k)) (sym e) (Refines-pure invalid)
  | no h0 ↦ elim (ℕ_discrete n 4) [
    | yes e ↦
        subst (λ k. Refines (dec_addr_of k) (addr_of k)) (sym e)
          (Refines-full_addr 4 v4 unmarshal_binary_4)
    | no h4 ↦ elim (ℕ_discrete n 16) [
      | yes e ↦
          subst (λ k. Refines (dec_addr_of k) (addr_of k)) (sym e)
            (Refines-full_addr 16 v6 unmarshal_binary_16)
      | no h16 ↦ Refines-other_addr n h0 h4 h16
    ]
  ]
]

pub Refines-addr : Refines dec_addr addr
unfolding dec_addr addr dec_u8
Refines-addr =
    Refines-bind (dec_word 1) (word 1) dec_addr_of addr_of (Refines-word 1) Refines-addr_of

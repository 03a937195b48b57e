-- ===== src/Control/Codec/Inversion.antt =====
-- The other way round: what the grammar reads for a field was that field's bytes.
use gremlind.Prelude.{
  ℕ, ◌^◌, ◌<◌, ◌≡◌, refl, sym, ap, subst₂, ◌∙◌, Option, none, some, ◌++◌, arith, length, take, drop,
  All, All-take, All-drop, length-take, take-append-drop, nat_eq, dec_lt, ℕ_discrete, lt→ltb,
  ne→nat_eqb,
}
use mathlib.Core.List.{append_assoc}
use gremlind.Prelude.Bytes.{Bytes, IsByte, be_bytes, be_value, be_bytes-be_value, be_value-lt}
use gremlind.Net.{Addr, InWidth, invalid, v4, v6}
use gremlind.Control.Proto.{Short}
use gremlind.Control.Codec.Grammar.{Parser, run, word, text, addr, addr_of, bind_parsed}
use gremlind.Control.Codec.Grammar
use gremlind.Control.Codec.Fields.{text_bytes, addr_bytes}

-- `s` starts with the bytes `out`, and what follows them is `rest`.
pub record Starts (s out rest : Bytes) : Type 0 where
  pub splits : s ≡ out ++ rest
  pub bytes : All IsByte rest

pub bind_parsed-some :
    {A B : Type 0} (o : Option (A × Bytes)) (q : A → Parser B) {r : B × Bytes}
    → bind_parsed o q ≡ some r
    → (a : A) × (s : Bytes) × (o ≡ some (a, s)) × (q a s ≡ some r)
bind_parsed-some none q h = cc
bind_parsed-some (some (a, s)) q h = (a, s, refl, h)

pub run-inv :
    (n : ℕ) (s bs rest : Bytes)
    → All IsByte s
    → run n s ≡ some (bs, rest)
    → (length bs ≡ n) × All IsByte bs × Starts s bs rest
unfolding run
run-inv n s bs rest a h = elim (dec_lt (length s) n) [
  | yes short ↦ absurd (ground (arith, lt→ltb (length s) n short))
  | no long ↦
      let front : take n s ≡ bs = ground arith in
      let back : drop n s ≡ rest = ground arith in
      rw (← front, ← back)
        (
          omega (arith, length-take n s),
          All-take IsByte n s a,
          record { splits = sym (take-append-drop n s); bytes = All-drop IsByte n s a },
        )
]

pub word-inv :
    (k : ℕ) (s : Bytes) (v : ℕ) (rest : Bytes)
    → All IsByte s
    → word k s ≡ some (v, rest)
    → (v < 256 ^ k) × Starts s (be_bytes k v) rest
unfolding word
word-inv k s v rest a h =
    let (bs, t, e, f) = bind_parsed-some (run k s) (λ bs. Grammar.pure (be_value bs)) h in
    let (len, byte, starts) = run-inv k s bs t a e in
    let value : v ≡ be_value bs = cc f in
    let tail : t ≡ rest = cc f in
    let written : Starts s (be_bytes k (be_value bs)) t = record {
      splits = rw (rw len at (be_bytes-be_value bs byte)) starts.splits;
      bytes = starts.bytes;
    } in
    (
      rw value (rw len at (be_value-lt bs byte)),
      subst₂ (λ u w. Starts s (be_bytes k u) w) (sym value) tail written,
    )

-- Two fields in a row.
pub Starts-append :
    {s out t out' rest : Bytes} → Starts s out t → Starts t out' rest → Starts s (out ++ out') rest
Starts-append {s} {out} {t} {out'} {rest} x y = record {
  splits = x.splits ∙ ap (◌++◌ out) y.splits ∙ sym (append_assoc out out' rest);
  bytes = y.bytes;
}

pub text-inv :
    (s v rest : Bytes)
    → All IsByte s
    → text s ≡ some (v, rest)
    → Short v × Starts s (text_bytes v) rest
unfolding text text_bytes
text-inv s v rest a h =
    let (n, t, e, f) = bind_parsed-some (word 2 s) run h in
    let (fits, head) = word-inv 2 s n t a e in
    let (len, byte, tail) = run-inv n t v rest head.bytes f in
    rw len ((omega (arith, len), byte), Starts-append head tail)

addr_of-inv :
    (n : ℕ) (s t : Bytes) (v : Addr) (rest : Bytes)
    → All IsByte t
    → Starts s (be_bytes 1 n) t
    → addr_of n t ≡ some (v, rest)
    → InWidth v × Starts s (addr_bytes v) rest
unfolding addr_of addr_bytes
addr_of-inv n s t v rest a head h = elim (ℕ_discrete n 0) [
  | yes e ↦ no_addr (rw e at head) (rw e at h)
  | no h0 ↦ elim (ℕ_discrete n 4) [
    | yes e ↦ full_addr 4 v4 (rw e at head) (rw e at h) (λ k b. b) (λ k. refl)
    | no h4 ↦ elim (ℕ_discrete n 16) [
      | yes e ↦ full_addr 16 v6 (rw e at head) (rw e at h) (λ k b. b) (λ k. refl)
      | no h16 ↦ absurd (ground (arith, ne→nat_eqb n 0 h0, ne→nat_eqb n 4 h4, ne→nat_eqb n 16 h16))
    ]
  ]
]
  where
    no_addr :
        Starts s (be_bytes 1 0) t
        → addr_of 0 t ≡ some (v, rest)
        → InWidth v × Starts s (addr_bytes v) rest
    no_addr start h =
        let value : invalid ≡ v = cc h in
        let tail : t ≡ rest = cc h in rw (← value, ← tail) (omega arith, start)

    full_addr :
        (w : ℕ) (c : ℕ → Addr)
        → Starts s (be_bytes 1 w) t
        → bind_parsed (word w t) (λ k. Grammar.pure (c k)) ≡ some (v, rest)
        → ((k : ℕ) → k < 256 ^ w → InWidth (c k))
        → ((k : ℕ) → addr_bytes (c k) ≡ be_bytes 1 w ++ be_bytes w k)
        → InWidth v × Starts s (addr_bytes v) rest
    full_addr w c start h wide out =
        let (k, u, e, f) = bind_parsed-some (word w t) (λ k. Grammar.pure (c k)) h in
        let (fits, body) = word-inv w t k u a e in
        let value : c k ≡ v = cc f in
        let tail : u ≡ rest = cc f in
        subst₂ (λ x r. InWidth x × Starts s (addr_bytes x) r) value tail
          (wide k fits, rw (out k) (Starts-append start body))

pub addr-inv :
    (s : Bytes) (v : Addr) (rest : Bytes)
    → All IsByte s
    → addr s ≡ some (v, rest)
    → InWidth v × Starts s (addr_bytes v) rest
unfolding addr
addr-inv s v rest a h =
    let (n, t, e, f) = bind_parsed-some (word 1 s) addr_of h in
    let (fits, head) = word-inv 1 s n t a e in addr_of-inv n s t v rest head.bytes head f

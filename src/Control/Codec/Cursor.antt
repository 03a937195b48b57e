-- ===== src/Control/Codec/Cursor.antt =====
-- The cursor of the decoder and its single reads, against the grammar's.
use gremlind.Prelude.{
  ℕ, ◌+◌, ◌≤◌, ◌<◌, ◌≡◌, refl, sym, ap, ◌∙◌, dec_lt, lt→ltb, not-lt→ltb, true, false, Option, none,
  some, arith, length, take, drop, length-drop, drop-drop, nat_eq, if◌then◌else◌,
}
use native.Mathlib.Nat.{add_comm}
use gremlind.Prelude.Bytes.{Bytes, be_value}
use gremlind.Prelude.Maps.{is_some}
use gremlind.Control.Codec.Decoder
use gremlind.Control.Codec.Decoder.{
  DecBuf, Decoder, Error, dec_word, dec_u8, dec_u16, dec_u32, dec_run, dec_str, dec_bytes, dec_addr,
  need, fail, slice, advance, unmarshal_binary, fields, finish, start, unmarshal_payload,
}
use gremlind.Control.Codec.Grammar
use gremlind.Control.Codec.Grammar.{Parser, run, word, text, addr, addr_of, payload, bind_parsed}

-- The cursor has not failed and `s` is what it has not reached.
pub record At (d : DecBuf) (s : Bytes) : Type 0 where
  pub clean : d.failure ≡ none
  pub here : drop d.pos d.b ≡ s
  pub room : d.pos ≤ length d.b

abbrev pub IsFailed : DecBuf → Type 0
IsFailed d = is_some d.failure ≡ true

abbrev pub Outcome : {A : Type 0} → A × DecBuf → Option (A × Bytes) → Type 0
Outcome (v, d) none = IsFailed d
Outcome (v, d) (some (w, s)) = (v ≡ w) × At d s

-- After a failure the reader stays failed, and before one it does what the parser does.
pub record Refines {A : Type 0} (m : Decoder A) (p : Parser A) : Type 0 where
  pub sticky : (d : DecBuf) → IsFailed d → IsFailed (m d).1
  pub agrees : (d : DecBuf) (s : Bytes) → At d s → Outcome (m d) (p s)

pub Refines-pure : {A : Type 0} (a : A) → Refines (Decoder.pure a) (Grammar.pure a)
Refines-pure a = record { sticky = λ d f. f; agrees = λ d s h. (refl, h) }

module _ {A B : Type 0} where
  bind-Outcome :
      (f : A → Decoder B) (q : A → Parser B)
      → ((a : A) → Refines (f a) (q a))
      → (r : A × DecBuf) (o : Option (A × Bytes)) → Outcome r o
      → Outcome (f r.0 r.1) (bind_parsed o q)
  bind-Outcome f q ref (v, d) none h = (ref v).sticky d h
  bind-Outcome f q ref (v, d) (some (w, s)) h =
      let same : v ≡ w = h.0 in rw same ((ref w).agrees d s h.1)

  pub Refines-bind :
      (m : Decoder A) (p : Parser A) (f : A → Decoder B) (q : A → Parser B)
      → Refines m p
      → ((a : A) → Refines (f a) (q a))
      → Refines (λ d. f (m d).0 (m d).1) (λ s. bind_parsed (p s) q)
  Refines-bind m p f q rm ref = record {
    sticky = λ d h. (ref (m d).0).sticky (m d).1 (rm.sticky d h);
    agrees = λ d s h. bind-Outcome f q ref (m d) (p s) (rm.agrees d s h);
  }

pub At-advance :
    (d : DecBuf) (s : Bytes) (n : ℕ) → At d s → n ≤ length s → At (advance n d) (drop n s)
At-advance d s n h fits = record {
  clean = h.clean;
  here = ap (λ k. drop k d.b) (add_comm d.pos n) ∙ sym (drop-drop d.pos n d.b) ∙ ap (drop n) h.here;
  room = omega (arith, ap length h.here, length-drop d.pos d.b, h.room);
}

pub remaining : (d : DecBuf) (s : Bytes) → At d s → length d.b ≡ d.pos + length s
remaining d s h = omega (arith, ap length h.here, length-drop d.pos d.b, h.room)

-- `need` says whether the bytes are there, and fails if they are not.
need-enough : (n : ℕ) (d : DecBuf) (s : Bytes) → At d s → n ≤ length s → need n d ≡ (true, d)
unfolding need
need-enough n d s h fits = ground (arith, h.clean, remaining d s h)

need-short :
    (n : ℕ) (d : DecBuf) (s : Bytes)
    → At d s
    → length s < n
    → (need n d).0 ≡ false × IsFailed (need n d).1
unfolding need fail
need-short n d s h short = ground (arith, h.clean, remaining d s h)

pub need-failed : (n : ℕ) (d : DecBuf) → IsFailed d → need n d ≡ (false, d)
unfolding need
need-failed n d f = ground arith

-- A reader that asks for `n` bytes and then takes a value of them.
module _ {A : Type 0} (n : ℕ) (f : Bytes → A) (zero_value : A) where
  abbrev pub reader : Decoder A
  reader d =
      let (there, d') = need n d in
      if there then (f (slice d' n), advance n d') else (zero_value, d')

  abbrev pub parser : Parser A
  parser s = bind_parsed (run n s) (λ bs. Grammar.pure (f bs))

  pub Refines-reader : Refines reader parser
  unfolding run
  Refines-reader = record {
    sticky = λ d h. rw (need-failed n d h) h;
    agrees = λ d s h. elim (dec_lt (length s) n) [
      | yes short ↦
          let (no_room, failed) = need-short n d s h short in
          rw (no_room, lt→ltb (length s) n short) failed
      | no long ↦
          rw (need-enough n d s h (omega arith), not-lt→ltb (length s) n long)
            (ap (λ t. f (take n t)) h.here, At-advance d s n h (omega arith))
    ];
  }

pub Refines-word : (k : ℕ) → Refines (dec_word k) (word k)
unfolding dec_word word
Refines-word k = Refines-reader k be_value 0

-- ===== src/Gre/Netlink/Replies.antt =====
-- The kernel's replies, as `nlExecProto` of internal/gre/netlink_linux.go collects them.
use mathlib.Core.List.{append_assoc}
use gremlind.Prelude.{
  ℕ, suc, ◌+◌, ◌-◌, ◌^◌, ◌≤◌, ◌<◌, ◌≡◌, ◌≢◌, refl, sym, ap, ◌∙◌, false, List, [], ◌∷◌, ◌++◌, ok,
  length, length-append, take, drop, take-append, drop-append, ltb, nat_eq, ne→nat_eqb, not-lt→ltb,
  arith,
}
use gremlind.Prelude.Bytes.{Bytes}
use gremlind.Gre.Netlink.Words.{
  Endian, native_bytes, native_value, length-native_bytes, native_value-native_bytes,
}
use gremlind.Gre.Netlink.Message.{align4, zeros}
use gremlind.Gre.Netlink.Reading.{length-zeros}
use gremlind.Gre.Netlink.Exec.{ended, on_error, messages}

module _ {A : Type 0} where
  pub take_front : (n : ℕ) (xs ys : List A) → length xs ≡ n → take n (xs ++ ys) ≡ xs
  take_front n xs ys h = ap (λ (k : ℕ). take k (xs ++ ys)) (sym h) ∙ take-append xs ys

  pub drop_front : (n : ℕ) (xs ys : List A) → length xs ≡ n → drop n (xs ++ ys) ≡ ys
  drop_front n xs ys h = ap (λ (k : ℕ). drop k (xs ++ ys)) (sym h) ∙ drop-append xs ys

-- A message of the kernel: the header that it fills in, and the payload with its padding.
pub record Reply : Type 0 where
  pub typ : ℕ
  pub flags : ℕ
  pub seq : ℕ
  pub pid : ℕ
  pub payload : Bytes

pub record Sendable (r : Reply) : Type 0 where
  pub typ_fits : r.typ < 2 ^ 16
  pub length_fits : 16 + length r.payload < 2 ^ 32

module _ (e : Endian) where
  abbrev tail_of : Reply → Bytes
  tail_of r = native_bytes e 2 r.flags ++ (native_bytes e 4 r.seq ++ native_bytes e 4 r.pid)

  abbrev header_of : Reply → Bytes
  header_of r = native_bytes e 4 (16 + length r.payload) ++ (native_bytes e 2 r.typ ++ tail_of r)

  abbrev gap : Reply → ℕ
  gap r = align4 (16 + length r.payload) - (16 + length r.payload)

  unfoldable pub encode_reply : Reply → Bytes
  encode_reply r = header_of r ++ (r.payload ++ zeros (gap r))

  unfoldable pub encode_replies : List Reply → Bytes
  unfolding encode_reply
  encode_replies [] = []
  encode_replies (r ∷ rs) = encode_reply r ++ encode_replies rs

  module _ (r : Reply) (fits : Sendable r) (rest : Bytes) where
    abbrev bytes : Bytes
    bytes = header_of r ++ (r.payload ++ (zeros (gap r) ++ rest))

    encode_reply-bytes : encode_reply r ++ rest ≡ bytes
    unfolding encode_reply
    encode_reply-bytes =
        append_assoc (header_of r) (r.payload ++ zeros (gap r)) rest
        ∙ ap (λ t. header_of r ++ t) (append_assoc r.payload (zeros (gap r)) rest)

    header_length : length (header_of r) ≡ 16
    header_length =
        let size = native_bytes e 4 (16 + length r.payload) in
        let typ = native_bytes e 2 r.typ in
        let flags = native_bytes e 2 r.flags in
        let seq = native_bytes e 4 r.seq in
        omega (
          arith,
          length-append size (typ ++ tail_of r),
          length-append typ (tail_of r),
          length-append flags (seq ++ native_bytes e 4 r.pid),
          length-append seq (native_bytes e 4 r.pid),
          length-native_bytes e 4 (16 + length r.payload),
          length-native_bytes e 2 r.typ,
          length-native_bytes e 2 r.flags,
          length-native_bytes e 4 r.seq,
          length-native_bytes e 4 r.pid,
        )

    abbrev size_word : Bytes
    size_word = native_bytes e 4 (16 + length r.payload)

    abbrev typ_word : Bytes
    typ_word = native_bytes e 2 r.typ

    abbrev behind : Bytes
    behind = r.payload ++ (zeros (gap r) ++ rest)

    read_length : native_value e (take 4 bytes) ≡ 16 + length r.payload
    read_length =
        ap (λ t. native_value e (take 4 t)) (append_assoc size_word (typ_word ++ tail_of r) behind)
        ∙ ap (native_value e) (
            take_front 4 size_word ((typ_word ++ tail_of r) ++ behind)
              (length-native_bytes e 4 (16 + length r.payload)))
        ∙ native_value-native_bytes e 4 (16 + length r.payload) (omega (arith, fits.length_fits))

    read_typ : native_value e (take 2 (drop 4 bytes)) ≡ r.typ
    read_typ =
        ap (λ t. native_value e (take 2 (drop 4 t)))
          (append_assoc size_word (typ_word ++ tail_of r) behind)
        ∙ ap (λ t. native_value e (take 2 t))
            (drop_front 4 size_word ((typ_word ++ tail_of r) ++ behind)
                (length-native_bytes e 4 (16 + length r.payload))
              ∙ append_assoc typ_word (tail_of r) behind)
        ∙ ap (native_value e)
            (take_front 2 typ_word (tail_of r ++ behind) (length-native_bytes e 2 r.typ))
        ∙ native_value-native_bytes e 2 r.typ (omega (arith, fits.typ_fits))

    reply_payload : drop 16 (take (16 + length r.payload) bytes) ≡ r.payload
    reply_payload =
        ap (λ t. drop 16 (take (16 + length r.payload) t))
          (sym (append_assoc (header_of r) r.payload (zeros (gap r) ++ rest)))
        ∙ ap (drop 16) (
            take_front (16 + length r.payload) (header_of r ++ r.payload) (zeros (gap r) ++ rest)
              (omega (arith, header_length, length-append (header_of r) r.payload)))
        ∙ drop_front 16 (header_of r) r.payload header_length

    length-encode_reply : length (encode_reply r) ≡ align4 (16 + length r.payload)
    unfolding encode_reply align4
    length-encode_reply = omega (
      arith,
      header_length,
      length-append (header_of r) (r.payload ++ zeros (gap r)),
      length-append r.payload (zeros (gap r)),
      length-zeros (gap r),
    )

    read_rest : drop (align4 (16 + length r.payload)) bytes ≡ rest
    read_rest =
        ap (drop (align4 (16 + length r.payload))) (sym encode_reply-bytes)
        ∙ drop_front (align4 (16 + length r.payload)) (encode_reply r) rest length-encode_reply

    bytes_length : length bytes ≡ align4 (16 + length r.payload) + length rest
    bytes_length =
        ap length (sym encode_reply-bytes)
        ∙ length-append (encode_reply r) rest
        ∙ ap (λ (n : ℕ). n + length rest) length-encode_reply

    above : 16 + length r.payload ≤ align4 (16 + length r.payload)
    unfolding align4
    above = omega arith

    module _ (fuel : ℕ) (out : List Bytes) where
      abbrev size : ℕ
      size = 16 + length r.payload

      enough : ltb (length bytes) 16 ≡ false
      enough = not-lt→ltb (length bytes) 16 (omega (arith, bytes_length, above))

      long : ltb size 16 ≡ false
      long = not-lt→ltb size 16 (omega arith)

      inside : ltb (length bytes) size ≡ false
      inside = not-lt→ltb (length bytes) size (omega (arith, bytes_length, above))

      padded : ltb (length bytes) (align4 size) ≡ false
      padded = not-lt→ltb (length bytes) (align4 size) (omega (arith, bytes_length))

      -- A message that is neither an error nor the end is one more payload.
      pub messages-reply :
          r.typ ≢ 2
          → r.typ ≢ 3
          → messages e (suc fuel) (encode_reply r ++ rest) out
            ≡ messages e fuel rest (out ++ r.payload ∷ [])
      unfolding messages
      messages-reply not_error not_end =
          let no_error = ne→nat_eqb r.typ 2 not_error in
          let no_end = ne→nat_eqb r.typ 3 not_end in
          rw
            (
              encode_reply-bytes, messages, read_length, read_typ, reply_payload, read_rest, enough,
              long, inside, padded, no_error, no_end,
            )
            refl

      pub messages-done :
          r.typ ≡ 3 → messages e (suc fuel) (encode_reply r ++ rest) out ≡ ended (ok out)
      unfolding messages
      messages-done last =
          rw (encode_reply-bytes, messages, read_length, read_typ, enough, long, inside, last) refl

      -- An error message ends the exchange by the value that its payload starts with.
      pub messages-error :
          r.typ ≡ 2 → messages e (suc fuel) (encode_reply r ++ rest) out ≡ on_error e r.payload out
      unfolding messages
      messages-error is_error =
          rw
            (
              encode_reply-bytes, messages, read_length, read_typ, reply_payload, enough, long,
              inside, is_error,
            )
            refl

  pub length_min-encode_reply : (r : Reply) → 1 ≤ length (encode_reply r)
  unfolding encode_reply
  length_min-encode_reply r = omega (
    arith,
    length-append (header_of r) (r.payload ++ zeros (gap r)),
    length-append (native_bytes e 4 (16 + length r.payload)) (native_bytes e 2 r.typ ++ tail_of r),
    length-native_bytes e 4 (16 + length r.payload),
  )

-- ===== src/Gre/Netlink/Dumps.antt =====
-- A dump and an acknowledgement, as `nlExecProto` of internal/gre/netlink_linux.go returns them.
use mathlib.Core.List.{append-nil, append_assoc}
use gremlind.Prelude.{
  ℕ, zero, suc, ◌+◌, ◌-◌, ◌≤◌, ◌<◌, ◌^◌, ◌≡◌, ◌≢◌, refl, sym, ap, ap₂, ◌∙◌, Bool, true, inl, inr,
  Bool-cases, List, [], ◌∷◌, ◌++◌, Option, some, ok, err, map, length, length-append, leb, ◌==◌,
  nat_eq, not-lt→ltb, All, arith, if◌then◌else◌,
}
use gremlind.Prelude.Bytes.{Bytes}
use gremlind.Gre.Netlink.Words.{
  Endian, native_bytes, length-native_bytes, native_value-native_bytes,
}
use gremlind.Gre.Netlink.Exec.{
  errno, ended, more, ack, on_error, messages, done, receiving, nl_exec,
}
use gremlind.Gre.Netlink.Replies.{
  Reply, Sendable, encode_reply, encode_replies, messages-reply, messages-done, messages-error,
  length_min-encode_reply, take_front,
}

-- A message of a dump: neither an error nor its end.
pub record Item (r : Reply) : Type 0 where
  pub sendable : Sendable r
  pub not_error : r.typ ≢ 2
  pub not_end : r.typ ≢ 3

abbrev pub payloads : List Reply → List Bytes
payloads [] = []
payloads (r ∷ rs) = r.payload ∷ payloads rs

abbrev pub gather : List (List Reply) → List Bytes
gather [] = []
gather (rs ∷ ds) = payloads rs ++ gather ds

module _ (e : Endian) where
  messages-items :
      (rs : List Reply) (fuel : ℕ) (rest : Bytes) (out : List Bytes)
      → All Item rs
      → messages e (length rs + fuel) (encode_replies e rs ++ rest) out
        ≡ messages e fuel rest (out ++ payloads rs)
  unfolding encode_replies
  messages-items [] fuel rest out h =
      ap₂ (λ n o. messages e n rest o) (omega arith) (sym (append-nil out))
  messages-items (r ∷ rs) fuel rest out h =
      let item = h.0 in
      let b = encode_replies e rs ++ rest in
      ap₂ (λ n t. messages e n t out) (omega arith)
        (append_assoc (encode_reply e r) (encode_replies e rs) rest)
      ∙ messages-reply e r item.sendable b (length rs + fuel) out item.not_error item.not_end
      ∙ messages-items rs fuel rest (out ++ r.payload ∷ []) h.1
      ∙ ap (messages e fuel rest) (append_assoc out (r.payload ∷ []) (payloads rs))

  no_bytes : (fuel : ℕ) (out : List Bytes) → messages e fuel [] out ≡ more out
  unfolding messages
  no_bytes zero out = refl
  no_bytes (suc fuel) out = refl

  room : (rs : List Reply) → length rs ≤ length (encode_replies e rs)
  unfolding encode_replies
  room [] = omega arith
  room (r ∷ rs) = omega (
    arith,
    room rs,
    length-append (encode_reply e r) (encode_replies e rs),
    length_min-encode_reply e r,
  )

  whole_datagram :
      (rs : List Reply) (out : List Bytes)
      → All Item rs
      → messages e (length (encode_replies e rs)) (encode_replies e rs) out
        ≡ more (out ++ payloads rs)
  whole_datagram rs out h =
      let b = encode_replies e rs in
      let split : length b ≡ length rs + (length b - length rs) = omega (arith, room rs) in
      ap₂ (λ n t. messages e n t out) split (sym (append-nil b))
      ∙ messages-items rs (length b - length rs) [] out h
      ∙ no_bytes (length b - length rs) (out ++ payloads rs)

  last_datagram :
      (rs : List Reply) (last : Reply) (rest : Bytes) (out : List Bytes)
      → All Item rs
      → Sendable last
      → last.typ ≡ 3
      → let b = encode_replies e rs ++ (encode_reply e last ++ rest) in
        messages e (length b) b out ≡ ended (ok (out ++ payloads rs))
  last_datagram rs last rest out h s t =
      let items = encode_replies e rs in
      let end = encode_reply e last ++ rest in
      let left = length (items ++ end) - length rs - 1 in
      let split : length (items ++ end) ≡ length rs + suc left = omega (
        arith,
        room rs,
        length-append items end,
        length-append (encode_reply e last) rest,
        length_min-encode_reply e last,
      ) in
      ap (λ n. messages e n (items ++ end) out) split
      ∙ messages-items rs (suc left) end out h
      ∙ messages-done e last s rest left (out ++ payloads rs) t

  receiving-items :
      (ds : List (List Reply)) (rest : List (Option Bytes)) (out : List Bytes)
      → All (All Item) ds
      → receiving e true (map (λ rs. some (encode_replies e rs)) ds ++ rest) out
        ≡ receiving e true rest (out ++ gather ds)
  unfolding receiving
  receiving-items [] rest out h = ap (receiving e true rest) (sym (append-nil out))
  receiving-items (rs ∷ ds) rest out h =
      (rw (whole_datagram rs out h.0, receiving) refl)
      ∙ receiving-items ds rest (out ++ payloads rs) h.1
      ∙ ap (receiving e true rest) (append_assoc out (payloads rs) (gather ds))

  receiving-last :
      (rs : List Reply) (last : Reply) (rest : Bytes) (later : List (Option Bytes))
      (out : List Bytes)
      → All Item rs
      → Sendable last
      → last.typ ≡ 3
      → receiving e true (some (encode_replies e rs ++ (encode_reply e last ++ rest)) ∷ later) out
        ≡ done (ok (out ++ payloads rs))
  unfolding receiving
  receiving-last rs last rest later out h s t =
      rw (last_datagram rs last rest out h s t, receiving) refl

  -- For a dump that the kernel sends in any number of datagrams, each with any number of messages,
  -- of which the last datagram holds the end, `nlExecProto` returns the payloads of all messages in
  -- front of the end, in order. What follows the end is not read.
  pub nl_exec-dump :
      (ds : List (List Reply)) (rs : List Reply) (last : Reply) (rest : Bytes)
      (later : List (Option Bytes))
      → All (All Item) ds
      → All Item rs
      → Sendable last
      → last.typ ≡ 3
      → nl_exec e true (
          map (λ d. some (encode_replies e d)) ds
          ++ some (encode_replies e rs ++ (encode_reply e last ++ rest)) ∷ later)
        ≡ done (ok (gather ds ++ payloads rs))
  unfolding nl_exec
  nl_exec-dump ds rs last rest later hd hr s t =
      receiving-items ds (some (encode_replies e rs ++ (encode_reply e last ++ rest)) ∷ later) [] hd
      ∙ receiving-last rs last rest later (gather ds) hr s t

  read_error :
      (payload : Bytes) (v : ℕ) (text : Bytes) (out : List Bytes)
      → payload ≡ native_bytes e 4 v ++ text
      → v < 2 ^ 32
      → on_error e payload out ≡ ended (ack v out)
  unfolding on_error
  read_error payload v text out p bound =
      let word = native_bytes e 4 v in
      let size = length-append word text in
      let enough =
        not-lt→ltb (length (word ++ text)) 4 (omega (arith, size, length-native_bytes e 4 v)) in
      let front = take_front 4 word text (length-native_bytes e 4 v) in
      let back = native_value-native_bytes e 4 v (omega (arith, bound)) in
      rw (p, on_error, enough, front, back) refl

  error_datagram :
      (r : Reply) (v : ℕ) (text rest : Bytes)
      → Sendable r
      → r.typ ≡ 2
      → r.payload ≡ native_bytes e 4 v ++ text
      → v < 2 ^ 32
      → let b = encode_reply e r ++ rest in messages e (length b) b [] ≡ ended (ack v [])
  error_datagram r v text rest s t p bound =
      let b = encode_reply e r ++ rest in
      let split : length b ≡ suc (length b - 1) =
        omega (arith, length-append (encode_reply e r) rest, length_min-encode_reply e r) in
      ap (λ n. messages e n b []) split
      ∙ messages-error e r s rest (length b - 1) [] t
      ∙ read_error r.payload v text [] p bound

  ack_value :
      (v : ℕ)
      → done (ack v []) ≡ (
          if v == 0
          then done (ok [])
          else done (err (errno (if leb (2 ^ 31) v then 2 ^ 32 - v else 2 ^ 64 - v))))
  unfolding ack
  ack_value v = elim (Bool-cases (v == 0)) [
    | inl none_set ↦ rw none_set refl
    | inr set ↦ rw set (elim (Bool-cases (leb (2 ^ 31) v)) [
      | inl negative ↦ rw negative refl
      | inr positive ↦ rw positive refl
    ])
  ]

  -- An acknowledgement that starts with the word `v` makes `nlExecProto` succeed without a payload
  -- where `v` is zero, and fail with the negated error where it is not, whatever follows it.
  pub nl_exec-ack :
      (dump : Bool) (r : Reply) (v : ℕ) (text rest : Bytes) (later : List (Option Bytes))
      → Sendable r
      → r.typ ≡ 2
      → r.payload ≡ native_bytes e 4 v ++ text
      → v < 2 ^ 32
      → nl_exec e dump (some (encode_reply e r ++ rest) ∷ later) ≡ (
          if v == 0
          then done (ok [])
          else done (err (errno (if leb (2 ^ 31) v then 2 ^ 32 - v else 2 ^ 64 - v))))
  unfolding nl_exec receiving
  nl_exec-ack dump r v text rest later s t p bound =
      (rw (error_datagram r v text rest s t p bound, receiving) refl) ∙ ack_value v

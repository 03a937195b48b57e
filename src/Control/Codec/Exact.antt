-- ===== src/Control/Codec/Exact.antt =====
-- The payloads of internal/control/codec.go: what `marshalPayload` writes and what
-- `unmarshalPayload` accepts.
use gremlind.Prelude.{◌≡◌, refl, some_pair, sym, subst₂, ◌∙◌, ◌↔◌, some, [], ok, arith, All}
use mathlib.Core.List.{append-nil}
use gremlind.Prelude.Bytes.{Bytes, IsByte}
use gremlind.Control.Proto.{
  MsgType, Message, auth, echo, echo_ack, teardown, encrypted, IsWellFormed, message_type,
  nonce_len,
}
use gremlind.Control.Codec.Encoder.{marshal_payload}
use gremlind.Control.Codec.Decoder.{unmarshal_payload}
use gremlind.Control.Codec.Grammar.{run, word, text, addr, payload}
use gremlind.Control.Codec.Inversion.{
  bind_parsed-some, run-inv, word-inv, text-inv, addr-inv, Starts-append,
}
use gremlind.Control.Codec.Payloads.{unmarshal_payload-Decodes}
use gremlind.Control.Codec.Layout.{layout, marshal_payload-layout, payload-layout}
use gremlind.Control.Codec.Laid.{Laid, text_message, word_message, session_reply_inv}

-- Every message that the grammar reads.
payload_inv :
    (t : MsgType) (s : Bytes) (m : Message) (rest : Bytes)
    → All IsByte s
    → payload t s ≡ some (m, rest)
    → Laid t s m rest
unfolding payload message_type
payload_inv MsgType.hello s m rest a h =
    let (id, s1, e1, h1) = bind_parsed-some (text s) _ h in
    let (w1, x1) = text-inv s id s1 a e1 in
    let (caps, s2, e2, h2) = bind_parsed-some (word 4 s1) _ h1 in
    let (w2, x2) = word-inv 4 s1 caps s2 x1.bytes e2 in
    let (same, tail) = some_pair h2 in
    subst₂ (Laid MsgType.hello s) same tail ((w1, omega arith), refl, Starts-append x1 x2)
payload_inv MsgType.challenge s m rest a h =
    let (nonce, s1, e1, h1) = bind_parsed-some (run nonce_len s) _ h in
    let (len, w, x) = run-inv nonce_len s nonce s1 a e1 in
    let (same, tail) = some_pair h1 in
    subst₂ (Laid MsgType.challenge s) same tail ((len, w), refl, x)
payload_inv MsgType.auth s m rest a h =
    text_message MsgType.auth (λ x. auth (record { mac = x })) (λ x w s r st. (w, refl, st)) s m
      rest a h
payload_inv MsgType.session_request s m rest a h =
    let (mtu, s1, e1, h1) = bind_parsed-some (word 2 s) _ h in
    let (w1, x1) = word-inv 2 s mtu s1 a e1 in
    let (inner, s2, e2, h2) = bind_parsed-some (addr s1) _ h1 in
    let (w2, x2) = addr-inv s1 inner s2 x1.bytes e2 in
    let (same, tail) = some_pair h2 in
    subst₂ (Laid MsgType.session_request s) same tail ((omega arith, w2), refl, Starts-append x1 x2)
payload_inv MsgType.session_reply s m rest a h = session_reply_inv s m rest a h
payload_inv MsgType.echo s m rest a h =
    word_message MsgType.echo (λ x. echo (record { seq = x })) (λ x w s r st. (w, refl, st)) s m
      rest a h
payload_inv MsgType.echo_ack s m rest a h =
    word_message MsgType.echo_ack (λ x. echo_ack (record { seq = x })) (λ x w s r st. (w, refl, st))
      s m rest a h
payload_inv MsgType.teardown s m rest a h =
    text_message MsgType.teardown (λ x. teardown (record { reason = x }))
      (λ x w s r st. (w, refl, st)) s m rest a h
payload_inv MsgType.encrypted s m rest a h =
    text_message MsgType.encrypted (λ x. encrypted (record { ciphertext = x }))
      (λ x w s r st. (w, refl, st)) s m rest a h

-- A well-formed message survives the way over the wire.
pub unmarshal-marshal_self :
    (m : Message) → IsWellFormed m → unmarshal_payload (message_type m) (marshal_payload m) ≡ ok m
unmarshal-marshal_self m w =
    (unmarshal_payload-Decodes (message_type m) (marshal_payload m) m).1
      (rw (marshal_payload-layout m w) (rw (append-nil (layout m)) at (payload-layout m w [])))

-- `unmarshalPayload` accepts a byte sequence exactly if it is what `marshalPayload` writes for a
-- well-formed message of the type, and returns that message.
pub unmarshal-marshal :
    (t : MsgType) (b : Bytes) (m : Message)
    → All IsByte b
    → (unmarshal_payload t b ≡ ok m)
      ↔ (IsWellFormed m × (message_type m ≡ t) × (b ≡ marshal_payload m))
unmarshal-marshal t b m a = (accepted, written)
  where
    accepted :
        unmarshal_payload t b ≡ ok m
        → IsWellFormed m × (message_type m ≡ t) × (b ≡ marshal_payload m)
    accepted h =
        let (w, ty, st) = payload_inv t b m [] a ((unmarshal_payload-Decodes t b m).0 h) in
        (w, ty, st.splits ∙ append-nil (layout m) ∙ sym (marshal_payload-layout m w))

    written :
        IsWellFormed m × (message_type m ≡ t) × (b ≡ marshal_payload m)
        → unmarshal_payload t b ≡ ok m
    written (w, ty, e) = rw (e, ← ty) (unmarshal-marshal_self m w)

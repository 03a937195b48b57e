-- ===== src/Control/Codec/Payloads.antt =====
-- `unmarshalPayload` against the payload grammar, message by message.
use gremlind.Prelude.{
  ℕ, ◌≡◌, ◌≢◌, refl, ◌↔◌, Option, none, some, [], ◌∷◌, Result, ok, arith, length, nat_eq, dec_lt,
  ℕ_discrete, lt→ltb, not-lt→ltb, ne→nat_eqb, take_all, drop_all, length-drop, ◌<◌,
}
use gremlind.Prelude.Bytes.{Bytes}
use gremlind.Control.Proto.{MsgType, Message, challenge, nonce_len}
use gremlind.Control.Codec.Grammar
use gremlind.Control.Codec.Decoder.{
  DecBuf, Error, dec_u8, dec_u16, dec_u32, dec_str, dec_bytes, dec_addr, fields, finish, start,
  unmarshal_payload,
}
use gremlind.Control.Codec.Grammar.{Parser, run, word, text, addr, payload, bind_parsed}
use gremlind.Control.Codec.Cursor.{
  At, Outcome, Refines, Refines-pure, Refines-bind, Refines-word, remaining,
}
use gremlind.Control.Codec.Refinement.{Refines-str, Refines-bytes, Refines-addr}

Refines-fields : (t : MsgType) → t ≢ MsgType.challenge → Refines (fields t) (payload t)
unfolding fields payload
Refines-fields MsgType.hello h =
    Refines-bind dec_str text _ _ Refines-str
      λ id. Refines-bind dec_u32 (word 4) _ _ (Refines-word 4) λ caps. Refines-pure _
Refines-fields MsgType.challenge h = absurd (h refl)
Refines-fields MsgType.auth h = Refines-bind dec_bytes text _ _ Refines-bytes λ mac. Refines-pure _
Refines-fields MsgType.session_request h =
    Refines-bind dec_u16 (word 2) _ _ (Refines-word 2)
      λ mtu. Refines-bind dec_addr addr _ _ Refines-addr λ inner. Refines-pure _
Refines-fields MsgType.session_reply h = Refines-bind dec_u8 (word 1) _ _ (Refines-word 1) λ result.
    Refines-bind dec_addr addr _ _ Refines-addr λ client_inner.
      Refines-bind dec_addr addr _ _ Refines-addr λ server_inner.
        Refines-bind dec_addr addr _ _ Refines-addr λ server_outer.
          Refines-bind dec_u32 (word 4) _ _ (Refines-word 4) λ gre_key.
            Refines-bind dec_u32 (word 4) _ _ (Refines-word 4) λ flags.
              Refines-bind dec_u16 (word 2) _ _ (Refines-word 2) λ mtu.
                Refines-bind dec_str text _ _ Refines-str
                  λ message. Refines-bind dec_bytes text _ _ Refines-bytes λ mac. Refines-pure _
Refines-fields MsgType.echo h =
    Refines-bind dec_u32 (word 4) _ _ (Refines-word 4) λ seq. Refines-pure _
Refines-fields MsgType.echo_ack h =
    Refines-bind dec_u32 (word 4) _ _ (Refines-word 4) λ seq. Refines-pure _
Refines-fields MsgType.teardown h =
    Refines-bind dec_str text _ _ Refines-str λ reason. Refines-pure _
Refines-fields MsgType.encrypted h =
    Refines-bind dec_bytes text _ _ Refines-bytes λ ciphertext. Refines-pure _

start-At : (b : Bytes) → At (start b) b
start-At b = record { clean = refl; here = refl; room = omega arith }

-- `unmarshalPayload` succeeds on exactly the byte sequences that the grammar parses to the end, with
-- the same message.
abbrev pub Decodes : Result Error Message → Option (Message × Bytes) → Type 0
Decodes r o = (m : Message) → (r ≡ ok m) ↔ (o ≡ some (m, []))

finish-Decodes :
    (r : Message × DecBuf) (o : Option (Message × Bytes)) → Outcome r o → Decodes (finish r) o
unfolding finish
finish-Decodes (v, d) none f m = ground arith
finish-Decodes (v, d) (some (w, [])) (e, h) m = ground (arith, h.clean, remaining d [] h)
finish-Decodes (v, d) (some (w, b ∷ s)) (e, h) m = ground (arith, h.clean, remaining d (b ∷ s) h)

run-short : (n : ℕ) (b : Bytes) → length b < n → run n b ≡ none
unfolding run
run-short n b h = rw (lt→ltb (length b) n h)

run-whole : (n : ℕ) (b : Bytes) → length b ≡ n → run n b ≡ some (b, [])
unfolding run
run-whole n b e = rw (not-lt→ltb (length b) n (omega arith), ← e) (rw (take_all b, drop_all b))

run-more :
    (n : ℕ) (b : Bytes)
    → n < length b
    → (m : Message)
    → bind_parsed (run n b) (λ nonce. Grammar.pure (challenge (record { nonce = nonce })))
      ≡ some (m, [])
    → ⊥
unfolding run
run-more n b h m = ground (arith, length-drop n b)

from_fields :
    (t : MsgType) (b : Bytes)
    → unmarshal_payload t b ≡ finish (fields t (start b))
    → t ≢ MsgType.challenge
    → Decodes (unmarshal_payload t b) (payload t b)
from_fields t b e h = rw e (
    finish-Decodes (fields t (start b)) (payload t b)
      ((Refines-fields t h).agrees (start b) b (start-At b)))

challenge-Decodes :
    (b : Bytes) → Decodes (unmarshal_payload MsgType.challenge b) (payload MsgType.challenge b)
unfolding unmarshal_payload payload
challenge-Decodes b m = elim (dec_lt (length b) nonce_len) [
  | yes short ↦
      rw (ne→nat_eqb (length b) nonce_len (omega arith), run-short nonce_len b short)
        (λ h. cc, λ h. cc)
  | no long ↦ elim (ℕ_discrete (length b) nonce_len) [
    | yes e ↦ rw (run-whole nonce_len b e, e) (λ h. cc, λ h. cc)
    | no more ↦
        rw (ne→nat_eqb (length b) nonce_len more)
          (λ h. cc, λ h. absurd (run-more nonce_len b (omega arith) _ h))
  ]
]

-- `unmarshalPayload` succeeds on exactly the byte sequences that the grammar parses to their end, and
-- with the same message.
pub unmarshal_payload-Decodes :
    (t : MsgType) (b : Bytes) → Decodes (unmarshal_payload t b) (payload t b)
unmarshal_payload-Decodes MsgType.challenge b = challenge-Decodes b
unmarshal_payload-Decodes MsgType.hello b =
    from_fields MsgType.hello b (unfold unmarshal_payload in refl) (λ e. cc)
unmarshal_payload-Decodes t b = from_fields t b (unfold unmarshal_payload in refl) (λ e. cc)

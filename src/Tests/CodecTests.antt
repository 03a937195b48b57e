-- ===== src/Tests/CodecTests.antt =====
-- internal/control/codec.go and the frames on concrete messages.
use gremlind.Prelude.{◌≡◌, refl, ◌↔◌, ◌≤◌, ◌∷◌, [], ◌++◌, ok, arith, length}
use gremlind.Prelude.Bytes.{Bytes, be_bytes}
use gremlind.Control.Proto.{MsgType, Message, teardown, IsWellFormed, type_byte, message_type}
use gremlind.Control.Codec.{enc_str, marshal_payload, unmarshal_payload}
use gremlind.Control.Codec.Grammar.{payload}
use gremlind.Control.Codec.Payloads.{Decodes, unmarshal_payload-Decodes}
use gremlind.Control.Codec.Exact.{unmarshal-marshal}
use gremlind.Control.Frame.{frame, write_message, read_message_limited}
use gremlind.Control.Frame.Exact.{read-write}

abbrev bye : Message
bye = teardown (record { reason = b'b' ∷ b'y' ∷ b'e' ∷ [] })

abbrev bye_payload : Bytes
bye_payload = 0 ∷ 3 ∷ b'b' ∷ b'y' ∷ b'e' ∷ []

abbrev bye_frame : Bytes
bye_frame = 0 ∷ 5 ∷ 2 ∷ 8 ∷ bye_payload

payload_bytes : marshal_payload bye ≡ bye_payload
unfolding marshal_payload enc_str be_bytes
payload_bytes = refl

unmarshal_payload-Decodes_example :
    Decodes (unmarshal_payload MsgType.teardown bye_payload) (payload MsgType.teardown bye_payload)
unmarshal_payload-Decodes_example = unmarshal_payload-Decodes MsgType.teardown bye_payload

unmarshal-marshal_example : (unmarshal_payload MsgType.teardown bye_payload ≡ ok bye) ↔ (
    IsWellFormed bye × (message_type bye ≡ MsgType.teardown) × (bye_payload ≡ marshal_payload bye))
unmarshal-marshal_example = unmarshal-marshal MsgType.teardown bye_payload bye (omega arith)

read-write_example : (read_message_limited (bye_frame ++ 7 ∷ []) 4096 ≡ ok (bye, 7 ∷ [])) ↔ (
    (out : Bytes) × IsWellFormed bye
    × (length (marshal_payload bye) ≤ 4096)
    × (write_message bye ≡ ok out)
    × (bye_frame ++ 7 ∷ [] ≡ out ++ 7 ∷ []))
read-write_example = read-write (bye_frame ++ 7 ∷ []) 4096 bye (7 ∷ []) (omega arith)

written : write_message bye ≡ ok bye_frame
unfolding write_message marshal_payload enc_str be_bytes frame type_byte message_type
written = refl

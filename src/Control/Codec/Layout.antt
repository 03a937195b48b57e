-- ===== src/Control/Codec/Layout.antt =====
-- The bytes of a payload of internal/control/codec.go, field by field.
use gremlind.Prelude.{◌≡◌, refl, some, [], ◌++◌}
use mathlib.Core.List.{append_assoc}
use gremlind.Prelude.Bytes.{Bytes, be_bytes}
use gremlind.Control.Proto.{
  Message, hello, challenge, auth, session_request, session_reply, echo, echo_ack, teardown,
  encrypted, SessionReply, IsWellFormed, message_type,
}
use gremlind.Control.Codec.Encoder.{enc_u8, enc_u16, enc_u32, marshal_payload}
use gremlind.Control.Codec.Grammar.{payload}
use gremlind.Control.Codec.Fields.{
  text_bytes, addr_bytes, enc_str-text_bytes, enc_bytes-text_bytes, enc_addr-addr_bytes,
  word-be_bytes, run-Reads, text-text_bytes, addr-addr_bytes,
}

abbrev pub reply_tail_layout : SessionReply → Bytes
reply_tail_layout m =
    be_bytes 4 m.gre_key
    ++ (be_bytes 4 m.tunnel_flags
        ++ (be_bytes 2 m.mtu ++ (text_bytes m.message ++ text_bytes m.server_mac)))

-- The payload of a message, field by field.
abbrev pub layout : Message → Bytes
layout (hello m) = text_bytes m.client_id ++ be_bytes 4 m.capabilities
layout (challenge m) = m.nonce
layout (auth m) = text_bytes m.mac
layout (session_request m) = be_bytes 2 m.outer_mtu ++ addr_bytes m.requested_inner
layout (session_reply m) =
    be_bytes 1 m.result
    ++ (addr_bytes m.client_inner
        ++ (addr_bytes m.server_inner ++ (addr_bytes m.server_outer ++ reply_tail_layout m)))
layout (echo m) = be_bytes 4 m.seq
layout (echo_ack m) = be_bytes 4 m.seq
layout (teardown m) = text_bytes m.reason
layout (encrypted m) = text_bytes m.ciphertext

pub marshal_payload-layout : (m : Message) → IsWellFormed m → marshal_payload m ≡ layout m
unfolding marshal_payload enc_u8 enc_u16 enc_u32
marshal_payload-layout (hello m) h = rw (enc_str-text_bytes [] m.client_id h.0)
marshal_payload-layout (challenge m) h = refl
marshal_payload-layout (auth m) h = enc_bytes-text_bytes [] m.mac h
marshal_payload-layout (session_request m) h =
    enc_addr-addr_bytes (be_bytes 2 m.outer_mtu) m.requested_inner
marshal_payload-layout (session_reply m) h =
    rw (enc_bytes-text_bytes _ m.server_mac h.8, enc_str-text_bytes _ m.message h.7)
      (simp (enc_addr-addr_bytes, append_assoc))
marshal_payload-layout (echo m) h = refl
marshal_payload-layout (echo_ack m) h = refl
marshal_payload-layout (teardown m) h = enc_str-text_bytes [] m.reason h
marshal_payload-layout (encrypted m) h = enc_bytes-text_bytes [] m.ciphertext h

-- A well-formed message is read back from its own bytes.
pub payload-layout :
    (m : Message)
    → IsWellFormed m
    → (rest : Bytes) → payload (message_type m) (layout m ++ rest) ≡ some (m, rest)
unfolding payload message_type
payload-layout (hello m) h rest = rw (
  append_assoc (text_bytes m.client_id) _ rest,
  text-text_bytes m.client_id h.0,
  word-be_bytes 4 m.capabilities h.1,
)
payload-layout (challenge m) h rest = rw (← h.0, run-Reads m.nonce)
payload-layout (auth m) h rest = rw (text-text_bytes m.mac h)
payload-layout (session_request m) h rest = rw (
  append_assoc (be_bytes 2 m.outer_mtu) _ rest,
  word-be_bytes 2 m.outer_mtu h.0,
  addr-addr_bytes m.requested_inner h.1,
)
payload-layout (session_reply m) h rest = simp append_assoc (
    rw (
      word-be_bytes 1 m.result h.0,
      addr-addr_bytes m.client_inner h.1,
      addr-addr_bytes m.server_inner h.2,
      addr-addr_bytes m.server_outer h.3,
      word-be_bytes 4 m.gre_key h.4,
      word-be_bytes 4 m.tunnel_flags h.5,
      word-be_bytes 2 m.mtu h.6,
      text-text_bytes m.message h.7,
      text-text_bytes m.server_mac h.8,
    ))
payload-layout (echo m) h rest = rw (word-be_bytes 4 m.seq h)
payload-layout (echo_ack m) h rest = rw (word-be_bytes 4 m.seq h)
payload-layout (teardown m) h rest = rw (text-text_bytes m.reason h)
payload-layout (encrypted m) h rest = rw (text-text_bytes m.ciphertext h)

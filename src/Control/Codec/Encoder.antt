-- ===== src/Control/Codec/Encoder.antt =====
-- The field encoder of internal/control/codec.go and the payload of each message.
use gremlind.Prelude.{ℕ, ◌%◌, ◌^◌, [], ◌++◌, length, not, if◌then◌else◌}
use gremlind.Prelude.Bytes.{Bytes, be_bytes}
use gremlind.Net.{Addr, is_valid, invalid, v4, v6}
use gremlind.Control.Proto.{
  Message, hello, challenge, auth, session_request, session_reply, echo, echo_ack, teardown,
  encrypted, SessionReply,
}

-- Each method appends to the buffer.
unfoldable pub enc_u8 : Bytes → ℕ → Bytes
enc_u8 b v = b ++ be_bytes 1 v

unfoldable pub enc_u16 : Bytes → ℕ → Bytes
enc_u16 b v = b ++ be_bytes 2 v

unfoldable pub enc_u32 : Bytes → ℕ → Bytes
enc_u32 b v = b ++ be_bytes 4 v

-- The length is converted to a uint16.
unfoldable pub enc_str : Bytes → Bytes → Bytes
unfolding enc_u16
enc_str b s = enc_u16 b (length s % 2 ^ 16) ++ s

unfoldable pub enc_bytes : Bytes → Bytes → Bytes
unfolding enc_u16
enc_bytes b p = enc_u16 b (length p % 2 ^ 16) ++ p

-- `Addr.MarshalBinary`: 4 or 16 bytes.
unfoldable pub marshal_binary : Addr → Bytes
marshal_binary invalid = []
marshal_binary (v4 n) = be_bytes 4 n
marshal_binary (v6 n) = be_bytes 16 n

unfoldable pub enc_addr : Bytes → Addr → Bytes
unfolding enc_u8 marshal_binary
enc_addr b a =
    if not (is_valid a)
    then enc_u8 b 0
    else enc_u8 b (length (marshal_binary a) % 2 ^ 8) ++ marshal_binary a

-- `sessionReplyProofPayload`: the fields that a proof covers, which a reply starts with.
unfoldable pub session_reply_proof_payload : SessionReply → Bytes
session_reply_proof_payload m =
    let e = enc_u8 [] m.result in
    let e = enc_addr e m.client_inner in
    let e = enc_addr e m.server_inner in
    let e = enc_addr e m.server_outer in
    let e = enc_u32 e m.gre_key in let e = enc_u32 e m.tunnel_flags in enc_u16 e m.mtu

-- `marshalPayload` of each message.
unfoldable pub marshal_payload : Message → Bytes
marshal_payload (hello m) = enc_u32 (enc_str [] m.client_id) m.capabilities
marshal_payload (challenge m) = m.nonce
marshal_payload (auth m) = enc_bytes [] m.mac
marshal_payload (session_request m) = enc_addr (enc_u16 [] m.outer_mtu) m.requested_inner
marshal_payload (session_reply m) =
    let e = enc_u8 [] m.result in
    let e = enc_addr e m.client_inner in
    let e = enc_addr e m.server_inner in
    let e = enc_addr e m.server_outer in
    let e = enc_u32 e m.gre_key in
    let e = enc_u32 e m.tunnel_flags in
    let e = enc_u16 e m.mtu in let e = enc_str e m.message in enc_bytes e m.server_mac
marshal_payload (echo m) = enc_u32 [] m.seq
marshal_payload (echo_ack m) = enc_u32 [] m.seq
marshal_payload (teardown m) = enc_str [] m.reason
marshal_payload (encrypted m) = enc_bytes [] m.ciphertext

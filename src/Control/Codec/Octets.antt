-- ===== src/Control/Codec/Octets.antt =====
-- What `marshalPayload` of internal/control/codec.go writes are bytes.
use gremlind.Prelude.{ℕ, ◌%◌, ◌^◌, ◌++◌, All, All-append, [], length}
use gremlind.Prelude.Bytes.{Bytes, IsByte, be_bytes, be_bytes-IsByte}
use gremlind.Net.{Addr, invalid, v4, v6}
use gremlind.Control.Proto.{
  Message, hello, challenge, auth, session_request, session_reply, echo, echo_ack, teardown,
  encrypted, IsWellFormed,
}
use gremlind.Control.Codec.Encoder.{
  enc_u8, enc_u16, enc_u32, enc_str, enc_bytes, enc_addr, marshal_binary, marshal_payload,
}

abbrev Octets : Bytes → Type 0
Octets = All IsByte

word-Octets : (b : Bytes) (k v : ℕ) → Octets b → Octets (b ++ be_bytes k v)
word-Octets b k v h = All-append IsByte b (be_bytes k v) h (be_bytes-IsByte k v)

enc_u8-Octets : (b : Bytes) (v : ℕ) → Octets b → Octets (enc_u8 b v)
unfolding enc_u8
enc_u8-Octets b v h = word-Octets b 1 v h

enc_u16-Octets : (b : Bytes) (v : ℕ) → Octets b → Octets (enc_u16 b v)
unfolding enc_u16
enc_u16-Octets b v h = word-Octets b 2 v h

enc_u32-Octets : (b : Bytes) (v : ℕ) → Octets b → Octets (enc_u32 b v)
unfolding enc_u32
enc_u32-Octets b v h = word-Octets b 4 v h

enc_str-Octets : (b s : Bytes) → Octets b → Octets s → Octets (enc_str b s)
unfolding enc_str
enc_str-Octets b s h k = All-append IsByte _ s (enc_u16-Octets b (length s % 2 ^ 16) h) k

enc_bytes-Octets : (b s : Bytes) → Octets b → Octets s → Octets (enc_bytes b s)
unfolding enc_bytes
enc_bytes-Octets b s h k = All-append IsByte _ s (enc_u16-Octets b (length s % 2 ^ 16) h) k

marshal_binary-Octets : (a : Addr) → Octets (marshal_binary a)
unfolding marshal_binary
marshal_binary-Octets invalid = tt
marshal_binary-Octets (v4 n) = be_bytes-IsByte 4 n
marshal_binary-Octets (v6 n) = be_bytes-IsByte 16 n

enc_addr-Octets : (b : Bytes) (a : Addr) → Octets b → Octets (enc_addr b a)
unfolding enc_addr
enc_addr-Octets b invalid h = enc_u8-Octets b 0 h
enc_addr-Octets b (v4 n) h =
    All-append IsByte _ _ (enc_u8-Octets b _ h) (marshal_binary-Octets (v4 n))
enc_addr-Octets b (v6 n) h =
    All-append IsByte _ _ (enc_u8-Octets b _ h) (marshal_binary-Octets (v6 n))

pub marshal_payload-IsByte : (m : Message) → IsWellFormed m → All IsByte (marshal_payload m)
unfolding marshal_payload
marshal_payload-IsByte (hello m) w = enc_u32-Octets _ _ (enc_str-Octets [] _ tt w.0.1)
marshal_payload-IsByte (challenge m) w = w.1
marshal_payload-IsByte (auth m) w = enc_bytes-Octets [] _ tt w.1
marshal_payload-IsByte (session_request m) w = enc_addr-Octets _ _ (enc_u16-Octets [] _ tt)
marshal_payload-IsByte (session_reply m) w =
    let (_, _, _, _, _, _, _, message, mac) = w in
    enc_bytes-Octets _ _
      (enc_str-Octets _ _
        (enc_u16-Octets _ _ (
          enc_u32-Octets _ _ (
            enc_u32-Octets _ _ (
              enc_addr-Octets _ _
                (enc_addr-Octets _ _ (enc_addr-Octets _ _ (enc_u8-Octets [] _ tt)))))))
        message.1)
      mac.1
marshal_payload-IsByte (echo m) w = enc_u32-Octets [] _ tt
marshal_payload-IsByte (echo_ack m) w = enc_u32-Octets [] _ tt
marshal_payload-IsByte (teardown m) w = enc_str-Octets [] _ tt w.1
marshal_payload-IsByte (encrypted m) w = enc_bytes-Octets [] _ tt w.1

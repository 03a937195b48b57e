-- ===== src/Control/Proto.antt =====
-- internal/control/proto.go: the messages. A Go string is its bytes, and a `[]byte` too: nil and the
-- empty slice are one. Integers keep their widths in `IsWellFormed`.
use gremlind.Prelude.{
  ℕ, ◌^◌, ◌<◌, ◌≡◌, Option, none, some, Bool, refl, arith, length, All, ◌==◌, nat_eq, if◌then◌else◌,
}
use gremlind.Prelude.Bytes.{Bytes, IsByte}
use gremlind.Net.{Addr, InWidth}

abbrev pub proto_version : ℕ
proto_version = 2

unfoldable pub supported_protocol_version : ℕ → Bool
supported_protocol_version v = v == proto_version

abbrev pub nonce_len : ℕ
nonce_len = 32

pub data MsgType : Type 0 where
  hello challenge auth session_request session_reply echo echo_ack teardown encrypted : MsgType

-- The values of the constants.
unfoldable pub type_byte : MsgType → ℕ
type_byte MsgType.hello = 1
type_byte MsgType.challenge = 2
type_byte MsgType.auth = 3
type_byte MsgType.session_request = 4
type_byte MsgType.session_reply = 5
type_byte MsgType.echo = 6
type_byte MsgType.echo_ack = 7
type_byte MsgType.teardown = 8
type_byte MsgType.encrypted = 9

abbrev pub tunnel_flag_gre_key : ℕ
tunnel_flag_gre_key = 1

abbrev pub tunnel_flag_gre_seq : ℕ
tunnel_flag_gre_seq = 2

-- The result codes. The field of a reply holds any byte.
abbrev pub result_ok : ℕ
result_ok = 0

abbrev pub result_auth_failed : ℕ
result_auth_failed = 1

abbrev pub result_no_addresses : ℕ
result_no_addresses = 2

abbrev pub result_unsupported : ℕ
result_unsupported = 3

abbrev pub result_internal : ℕ
result_internal = 4

pub record Hello : Type 0 where
  pub client_id : Bytes
  pub capabilities : ℕ

pub record Challenge : Type 0 where
  pub nonce : Bytes

pub record Auth : Type 0 where
  pub mac : Bytes

pub record SessionRequest : Type 0 where
  pub outer_mtu : ℕ
  pub requested_inner : Addr

pub record SessionReply : Type 0 where
  pub result : ℕ
  pub client_inner : Addr
  pub server_inner : Addr
  pub server_outer : Addr
  pub gre_key : ℕ
  pub tunnel_flags : ℕ
  pub mtu : ℕ
  pub message : Bytes
  pub server_mac : Bytes

pub record Echo : Type 0 where
  pub seq : ℕ

pub record EchoAck : Type 0 where
  pub seq : ℕ

pub record Teardown : Type 0 where
  pub reason : Bytes

pub record Encrypted : Type 0 where
  pub ciphertext : Bytes

pub data Message : Type 0 where
  hello : Hello → Message
  challenge : Challenge → Message
  auth : Auth → Message
  session_request : SessionRequest → Message
  session_reply : SessionReply → Message
  echo : Echo → Message
  echo_ack : EchoAck → Message
  teardown : Teardown → Message
  encrypted : Encrypted → Message

-- `Message.Type`
unfoldable pub message_type : Message → MsgType
message_type (hello m) = MsgType.hello
message_type (challenge m) = MsgType.challenge
message_type (auth m) = MsgType.auth
message_type (session_request m) = MsgType.session_request
message_type (session_reply m) = MsgType.session_reply
message_type (echo m) = MsgType.echo
message_type (echo_ack m) = MsgType.echo_ack
message_type (teardown m) = MsgType.teardown
message_type (encrypted m) = MsgType.encrypted

-- `newMessage`: the type of the message to decode, `none` for an unknown byte.
unfoldable pub new_message : ℕ → Option MsgType
new_message t =
    if t == 1
    then some MsgType.hello
    else if t == 2
    then some MsgType.challenge
    else if t == 3
    then some MsgType.auth
    else if t == 4
    then some MsgType.session_request
    else if t == 5
    then some MsgType.session_reply
    else if t == 6
    then some MsgType.echo
    else if t == 7
    then some MsgType.echo_ack
    else if t == 8
    then some MsgType.teardown
    else if t == 9
    then some MsgType.encrypted
    else none

-- Bytes that a uint16 length prefix can announce.
abbrev pub Short : Bytes → Type 0
Short s = (length s < 2 ^ 16) × All IsByte s

-- The Go type of each field, and lengths that their prefix does not cut.
abbrev pub IsWellFormed : Message → Type 0
IsWellFormed (hello m) = Short m.client_id × (m.capabilities < 2 ^ 32)
IsWellFormed (challenge m) = (length m.nonce ≡ nonce_len) × All IsByte m.nonce
IsWellFormed (auth m) = Short m.mac
IsWellFormed (session_request m) = (m.outer_mtu < 2 ^ 16) × InWidth m.requested_inner
IsWellFormed (session_reply m) =
    (m.result < 2 ^ 8)
    × InWidth m.client_inner
    × InWidth m.server_inner
    × InWidth m.server_outer
    × (m.gre_key < 2 ^ 32)
    × (m.tunnel_flags < 2 ^ 32)
    × (m.mtu < 2 ^ 16)
    × Short m.message
    × Short m.server_mac
IsWellFormed (echo m) = m.seq < 2 ^ 32
IsWellFormed (echo_ack m) = m.seq < 2 ^ 32
IsWellFormed (teardown m) = Short m.reason
IsWellFormed (encrypted m) = Short m.ciphertext

-- The Go type of each field alone: what every message in memory satisfies.
abbrev pub IsTyped : Message → Type 0
IsTyped (hello m) = All IsByte m.client_id × (m.capabilities < 2 ^ 32)
IsTyped (challenge m) = (length m.nonce ≡ nonce_len) × All IsByte m.nonce
IsTyped (auth m) = All IsByte m.mac
IsTyped (session_request m) = (m.outer_mtu < 2 ^ 16) × InWidth m.requested_inner
IsTyped (session_reply m) =
    (m.result < 2 ^ 8)
    × InWidth m.client_inner
    × InWidth m.server_inner
    × InWidth m.server_outer
    × (m.gre_key < 2 ^ 32)
    × (m.tunnel_flags < 2 ^ 32)
    × (m.mtu < 2 ^ 16)
    × All IsByte m.message
    × All IsByte m.server_mac
IsTyped (echo m) = m.seq < 2 ^ 32
IsTyped (echo_ack m) = m.seq < 2 ^ 32
IsTyped (teardown m) = All IsByte m.reason
IsTyped (encrypted m) = All IsByte m.ciphertext

-- The bytes of the types are those that `newMessage` knows.
pub new_message-type_byte : (t : MsgType) → new_message (type_byte t) ≡ some t
unfolding new_message type_byte
new_message-type_byte MsgType.hello = refl
new_message-type_byte _ = refl

pub type_byte-new_message : (b : ℕ) (t : MsgType) → new_message b ≡ some t → b ≡ type_byte t
unfolding new_message type_byte
type_byte-new_message b MsgType.hello h = ground arith
type_byte-new_message b _ h = ground arith

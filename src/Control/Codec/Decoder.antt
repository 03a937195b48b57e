-- ===== src/Control/Codec/Decoder.antt =====
-- The field decoder of internal/control/codec.go: a cursor with a sticky error. A reader that fails
-- returns a zero value and the messages are decoded to the end; `finish` reports the error.
use gremlind.Prelude.{
  ℕ, ◌+◌, Bool, true, false, [], ◌&&◌, not, Option, none, some, Result, ok, err, length, take, drop,
  ltb, ◌==◌, nat_eq, if◌then◌else◌,
}
use gremlind.Prelude.Bytes.{Bytes, be_value}
use gremlind.Net.{Addr, invalid, v4, v6}
use gremlind.Control.Proto.{
  MsgType, Message, hello, challenge, auth, session_request, session_reply, echo, echo_ack,
  teardown, encrypted, nonce_len,
}

pub data Error : Type 0 where
  short_payload : Error
  invalid_address_length : ℕ → Error
  trailing_bytes : Error
  nonce_length : Error

pub record DecBuf : Type 0 where
  pub b : Bytes
  pub pos : ℕ
  pub failure : Option Error

-- A read through the cursor returns a value and moves the cursor.
abbrev pub Decoder : Type 0 → Type 0
Decoder A = DecBuf → A × DecBuf

infixl 5 ◌>>=◌
abbrev pub ◌>>=◌ : {A B : Type 0} → Decoder A → (A → Decoder B) → Decoder B
◌>>=◌ m f d = let (a, d') = m d in f a d'

abbrev pub pure : {A : Type 0} → A → Decoder A
pure a d = (a, d)

-- `fail`: only the first error is kept.
unfoldable pub fail : DecBuf → DecBuf
fail d = elim d.failure [ none ↦ record d { failure = some short_payload } | some e ↦ d ]

-- `need`
unfoldable pub need : ℕ → Decoder Bool
unfolding fail
need n d = elim d.failure [
  | some e ↦ (false, d)
  | none ↦ if ltb (length d.b) (d.pos + n) then (false, fail d) else (true, d)
]

-- `d.b[d.pos : d.pos+n]`
abbrev pub slice : DecBuf → ℕ → Bytes
slice d n = take n (drop d.pos d.b)

abbrev pub advance : ℕ → DecBuf → DecBuf
advance n d = record d { pos = d.pos + n }

-- `u8`, `u16` and `u32` differ in their width.
unfoldable pub dec_word : ℕ → Decoder ℕ
unfolding need
dec_word k d =
    let (there, d') = need k d in if there then (be_value (slice d' k), advance k d') else (0, d')

unfoldable pub dec_u8 : Decoder ℕ
unfolding dec_word
dec_u8 = dec_word 1

unfoldable pub dec_u16 : Decoder ℕ
unfolding dec_word
dec_u16 = dec_word 2

unfoldable pub dec_u32 : Decoder ℕ
unfolding dec_word
dec_u32 = dec_word 4

-- What `str` and `bytes` do behind the length.
unfoldable pub dec_run : ℕ → Decoder Bytes
unfolding need
dec_run n d = let (there, d') = need n d in if there then (slice d' n, advance n d') else ([], d')

unfoldable pub dec_str : Decoder Bytes
unfolding dec_u16 dec_run
dec_str = do n ← dec_u16; dec_run n

-- With the length 0 the result is nil and the cursor stays.
unfoldable pub dec_bytes : Decoder Bytes
unfolding dec_u16 need
dec_bytes d =
    let (n, d) = dec_u16 d in
    let (there, d) = need n d in
    if not there then ([], d) else if n == 0 then ([], d) else (slice d n, advance n d)

-- `Addr.UnmarshalBinary` on 4 or 16 bytes, where it does not fail.
unfoldable pub unmarshal_binary : Bytes → Addr
unmarshal_binary s = if length s == 4 then v4 (be_value s) else v6 (be_value s)

unfoldable pub dec_addr : Decoder Addr
unfolding dec_u8 need unmarshal_binary
dec_addr d =
    let (n, d) = dec_u8 d in
    if n == 0
    then (invalid, d)
    else if not (n == 4) && not (n == 16)
    then (invalid, record d { failure = some (invalid_address_length n) })
    else let (there, d) = need n d in
      if there then (unmarshal_binary (slice d n), advance n d) else (invalid, d)

-- `finish`, on the value that the readers have put together.
unfoldable pub finish : {A : Type 0} → A × DecBuf → Result Error A
finish (a, d) = elim d.failure [
  | some e ↦ err e
  | none ↦ if d.pos == length d.b then ok a else err trailing_bytes
]

abbrev pub start : Bytes → DecBuf
start b = record { b = b; pos = 0; failure = none }

-- The readers of each message's fields, in the order of `unmarshalPayload`.
unfoldable pub fields : MsgType → Decoder Message
unfolding dec_u8 dec_u16 dec_u32 dec_str dec_bytes dec_addr
fields MsgType.hello = do
  client_id ← dec_str
  capabilities ← dec_u32
  pure (hello (record { client_id = client_id; capabilities = capabilities }))
fields MsgType.challenge = λ d. (challenge (record { nonce = d.b }), d)
fields MsgType.auth = do mac ← dec_bytes; pure (auth (record { mac = mac }))
fields MsgType.session_request = do
  outer_mtu ← dec_u16
  requested_inner ← dec_addr
  pure (session_request (record { outer_mtu = outer_mtu; requested_inner = requested_inner }))
fields MsgType.session_reply = do
  result ← dec_u8
  client_inner ← dec_addr
  server_inner ← dec_addr
  server_outer ← dec_addr
  gre_key ← dec_u32
  tunnel_flags ← dec_u32
  mtu ← dec_u16
  message ← dec_str
  server_mac ← dec_bytes
  pure (
      session_reply (record {
        result = result;
        client_inner = client_inner;
        server_inner = server_inner;
        server_outer = server_outer;
        gre_key = gre_key;
        tunnel_flags = tunnel_flags;
        mtu = mtu;
        message = message;
        server_mac = server_mac;
      }))
fields MsgType.echo = do seq ← dec_u32; pure (echo (record { seq = seq }))
fields MsgType.echo_ack = do seq ← dec_u32; pure (echo_ack (record { seq = seq }))
fields MsgType.teardown = do reason ← dec_str; pure (teardown (record { reason = reason }))
fields MsgType.encrypted = do
  ciphertext ← dec_bytes
  pure (encrypted (record { ciphertext = ciphertext }))

-- `unmarshalPayload` of each message. A challenge is copied whole, behind a test of its length.
unfoldable pub unmarshal_payload : MsgType → Bytes → Result Error Message
unfolding fields finish
unmarshal_payload MsgType.challenge b =
    if length b == nonce_len then ok (challenge (record { nonce = b })) else err nonce_length
unmarshal_payload t b = finish (fields t (start b))

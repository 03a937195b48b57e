-- ===== src/Control/Codec/Grammar.antt =====
-- The payload grammar without a cursor: a parser takes what it needs from the front of the bytes, or
-- there is no parse. The decoder of internal/control/codec.go is compared with it.
use gremlind.Prelude.{ℕ, Option, none, some, length, take, drop, ltb, ◌==◌, nat_eq, if◌then◌else◌}
use gremlind.Prelude.Bytes.{Bytes, be_value}
use gremlind.Net.{Addr, invalid, v4, v6}
use gremlind.Control.Proto.{
  MsgType, Message, hello, challenge, auth, session_request, session_reply, echo, echo_ack,
  teardown, encrypted, nonce_len,
}

abbrev pub Parser : Type 0 → Type 0
Parser A = Bytes → Option (A × Bytes)

abbrev pub bind_parsed : {A B : Type 0} → Option (A × Bytes) → (A → Parser B) → Option (B × Bytes)
bind_parsed none f = none
bind_parsed (some (a, s)) f = f a s

infixl 5 ◌>>=◌
abbrev pub ◌>>=◌ : {A B : Type 0} → Parser A → (A → Parser B) → Parser B
◌>>=◌ p f s = bind_parsed (p s) f

abbrev pub pure : {A : Type 0} → A → Parser A
pure a s = some (a, s)

-- The next `n` bytes.
unfoldable pub run : ℕ → Parser Bytes
run n s = if ltb (length s) n then none else some (take n s, drop n s)

-- The next `k` bytes as a word.
unfoldable pub word : ℕ → Parser ℕ
unfolding run
word k = do bs ← run k; pure (be_value bs)

-- A run of bytes behind its 16-bit length.
unfoldable pub text : Parser Bytes
unfolding word run
text = do n ← word 2; run n

unfoldable pub addr_of : ℕ → Parser Addr
unfolding word
addr_of n =
    if n == 0
    then pure invalid
    else if n == 4
    then (do k ← word 4; pure (v4 k))
    else if n == 16
    then (do k ← word 16; pure (v6 k))
    else λ s. none

-- An address behind its length of 0, 4 or 16.
unfoldable pub addr : Parser Addr
unfolding word addr_of
addr = do n ← word 1; addr_of n

-- The second half of a session reply.
unfoldable pub reply_tail : ℕ → Addr → Addr → Addr → Parser Message
unfolding word text
reply_tail result client_inner server_inner server_outer = do
  gre_key ← word 4
  tunnel_flags ← word 4
  mtu ← word 2
  message ← text
  server_mac ← text
  pure (
      session_reply (record {
        result = result;
        client_inner = client_inner;
        server_inner = server_inner;
        server_outer = server_outer;
        gre_key = gre_key;
        tunnel_flags = tunnel_flags;
        mtu = mtu;
        message = message;
        server_mac = server_mac;
      }))

unfoldable pub payload : MsgType → Parser Message
unfolding word text addr run reply_tail
payload MsgType.hello = do
  client_id ← text
  capabilities ← word 4
  pure (hello (record { client_id = client_id; capabilities = capabilities }))
payload MsgType.challenge = do nonce ← run nonce_len; pure (challenge (record { nonce = nonce }))
payload MsgType.auth = do mac ← text; pure (auth (record { mac = mac }))
payload MsgType.session_request = do
  outer_mtu ← word 2
  requested_inner ← addr
  pure (session_request (record { outer_mtu = outer_mtu; requested_inner = requested_inner }))
payload MsgType.session_reply = do
  result ← word 1
  client_inner ← addr
  server_inner ← addr
  server_outer ← addr
  reply_tail result client_inner server_inner server_outer
payload MsgType.echo = do seq ← word 4; pure (echo (record { seq = seq }))
payload MsgType.echo_ack = do seq ← word 4; pure (echo_ack (record { seq = seq }))
payload MsgType.teardown = do reason ← text; pure (teardown (record { reason = reason }))
payload MsgType.encrypted = do
  ciphertext ← text
  pure (encrypted (record { ciphertext = ciphertext }))

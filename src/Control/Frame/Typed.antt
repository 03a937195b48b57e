-- ===== src/Control/Frame/Typed.antt =====
-- A message that `WriteMessage` accepts has no string that its length prefix would cut.
use gremlind.Prelude.{ℕ, ◌+◌, ◌%◌, ◌^◌, ◌≤◌, ◌≡◌, [], ◌++◌, ok, arith, length, length-append}
use gremlind.Prelude.Bytes.{Bytes, be_bytes, length-be_bytes}
use gremlind.Control.Proto.{
  Message, hello, challenge, auth, session_request, session_reply, echo, echo_ack, teardown,
  encrypted, IsTyped, IsWellFormed,
}
use gremlind.Control.Codec.{enc_u32, enc_str, enc_bytes, marshal_payload}
use gremlind.Control.Frame.{max_payload, write_message, read_message_limited}
use gremlind.Control.Frame.Exact.{write_message-inv, read_message_limited-frame}

length-enc_str : (b s : Bytes) → length (enc_str b s) ≡ length b + 2 + length s
unfolding enc_str
length-enc_str b s = omega (
  arith,
  length-append (b ++ be_bytes 2 (length s % 2 ^ 16)) s,
  length-append b (be_bytes 2 (length s % 2 ^ 16)),
  length-be_bytes 2 (length s % 2 ^ 16),
)

length-enc_bytes : (b s : Bytes) → length (enc_bytes b s) ≡ length b + 2 + length s
unfolding enc_bytes enc_str
length-enc_bytes b s = length-enc_str b s

length-enc_u32 : (b : Bytes) (v : ℕ) → length (enc_u32 b v) ≡ length b + 4
unfolding enc_u32
length-enc_u32 b v = omega (arith, length-append b (be_bytes 4 v), length-be_bytes 4 v)

reply_strings :
    (b s p : Bytes) (n : ℕ)
    → length (enc_bytes (enc_str b s) p) ≤ n
    → (length s + 2 ≤ n) × (length p + 2 ≤ n)
reply_strings b s p n h = omega (arith, length-enc_bytes (enc_str b s) p, length-enc_str b s)

pub typed_fits :
    (m : Message) → IsTyped m → length (marshal_payload m) ≤ max_payload → IsWellFormed m
unfolding marshal_payload
typed_fits (hello m) t h = (
  (
    omega (
      arith,
      length-enc_u32 (enc_str [] m.client_id) m.capabilities,
      length-enc_str [] m.client_id,
    ),
    t.0,
  ),
  t.1,
)
typed_fits (challenge m) t h = t
typed_fits (auth m) t h = (omega (arith, length-enc_bytes [] m.mac), t)
typed_fits (session_request m) t h = t
typed_fits (session_reply m) t h =
    let (s, p) = reply_strings _ m.message m.server_mac max_payload h in
    (t.0, t.1, t.2, t.3, t.4, t.5, t.6, (omega (arith, s), t.7), (omega (arith, p), t.8))
typed_fits (echo m) t h = t
typed_fits (echo_ack m) t h = t
typed_fits (teardown m) t h = (omega (arith, length-enc_str [] m.reason), t)
typed_fits (encrypted m) t h = (omega (arith, length-enc_bytes [] m.ciphertext), t)

-- Whatever message, with fields of their Go types, `WriteMessage` accepts, a reader whose limit is
-- not below its payload gets that message back, and what follows the frame is left in the stream.
pub read-written :
    (m : Message) (out rest : Bytes) (max : ℕ)
    → IsTyped m
    → write_message m ≡ ok out
    → length (marshal_payload m) ≤ max
    → read_message_limited (out ++ rest) max ≡ ok (m, rest)
read-written m out rest max t sent le =
    let (short, same) = write_message-inv m out sent in
    rw same (read_message_limited-frame m max rest (typed_fits m t short) le short)

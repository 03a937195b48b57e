-- ===== src/Control/Frame.antt =====
-- The frames of internal/control/codec.go: `WriteMessage`, `writeFull` and `ReadMessageLimited`, the
-- plain frames of internal/control/secure.go and `looksLikeControl` of internal/control/server.go.
-- A connection's unread bytes are a list; a read past its end is an error.
pub mod Exact
pub mod Typed
pub mod Writing
use gremlind.Prelude.{
  ℕ, zero, suc, ◌+◌, ◌-◌, ◌%◌, ◌^◌, Bool, true, false, ◌&&◌, not, Option, none, some, List, [], ◌∷◌,
  ◌++◌, Result, ok, err, length, take, drop, ltb, leb, ◌==◌, nat_eq, if◌then◌else◌, ◌>>=◌,
}
use gremlind.Prelude.Maps.{is_some}
use gremlind.Prelude.Bytes.{Bytes, be_bytes, be_value}
use gremlind.Control.Proto.{
  MsgType, Message, proto_version, supported_protocol_version, type_byte, message_type, new_message,
}
use gremlind.Control.Codec
use gremlind.Control.Codec.{marshal_payload, unmarshal_payload}

abbrev pub frame_header_len : ℕ
frame_header_len = 4

abbrev pub max_payload : ℕ
max_payload = 0xffff

pub data Error : Type 0 where
  payload_too_large : Error
  end_of_input : Error
  unsupported_version : ℕ → Error
  exceeds_limit : ℕ → Error
  unknown_type : ℕ → Error
  bad_payload : Codec.Error → Error
  length_mismatch : Error
  invalid_encrypted_type : ℕ → Error
  expected_encrypted : Error
  decrypt_failed : Error

-- The header of a frame and its payload.
unfoldable pub frame : Message → Bytes
frame m =
    let payload = marshal_payload m in
    be_bytes 2 (length payload % 2 ^ 16) ++ proto_version ∷ type_byte (message_type m) ∷ payload

-- `WriteMessage`, up to the bytes that it hands to `writeFull`.
unfoldable pub write_message : Message → Result Error Bytes
write_message m =
    if ltb max_payload (length (marshal_payload m)) then err payload_too_large else ok (frame m)

-- `io.ReadFull`
unfoldable pub read_full : ℕ → Bytes → Result Error (Bytes × Bytes)
read_full n s = if ltb (length s) n then err end_of_input else ok (take n s, drop n s)

-- `hdr[i]`
abbrev pub byte_at : ℕ → Bytes → ℕ
byte_at i [] = 0
byte_at zero (b ∷ s) = b
byte_at (suc i) (b ∷ s) = byte_at i s

abbrev pub decoded : Bytes → Result Codec.Error Message → Result Error (Message × Bytes)
decoded rest (ok m) = ok (m, rest)
decoded rest (err e) = err (bad_payload e)

-- The payload behind a header that is accepted.
unfoldable pub read_payload : Option MsgType → ℕ → ℕ → Bytes → Result Error (Message × Bytes)
unfolding read_full
read_payload none b n s = err (unknown_type b)
read_payload (some t) b n s = do
  (payload, rest) ← read_full n s
  decoded rest (unmarshal_payload t payload)

-- What `ReadMessageLimited` does with the fields of a header.
unfoldable pub accept_header : ℕ → ℕ → ℕ → ℕ → Bytes → Result Error (Message × Bytes)
unfolding read_payload supported_protocol_version
accept_header max payload_len version msg_type rest =
    if not (supported_protocol_version version)
    then err (unsupported_version version)
    else if ltb max payload_len
    then err (exceeds_limit payload_len)
    else read_payload (new_message msg_type) msg_type payload_len rest

-- `ReadMessageLimited`: the message and the bytes that are left.
unfoldable pub read_message_limited : Bytes → ℕ → Result Error (Message × Bytes)
unfolding read_full accept_header
read_message_limited s max = do
  (hdr, rest) ← read_full frame_header_len s
  accept_header max (be_value (take 2 hdr)) (byte_at 2 hdr) (byte_at 3 hdr) rest

-- `ReadMessage`
unfoldable pub read_message : Bytes → Result Error (Message × Bytes)
unfolding read_message_limited
read_message s = read_message_limited s max_payload

-- `looksLikeControl`: a look at the header that consumes nothing.
unfoldable pub looks_like_control : Bytes → Bool
looks_like_control s =
    if ltb (length s) frame_header_len
    then false
    else byte_at 2 s == proto_version && is_some (new_message (byte_at 3 s))

-- What `Write` answers: how much it took, or an error.
pub data Answer : Type 0 where
  took : ℕ → Answer
  failed : Answer

pub data Outcome : Type 0 where
  done : Outcome
  write_error : Outcome
  short_write : Outcome
  waiting : Outcome

-- `writeFull`, one answer a round: the outcome and what the peer has. `waiting` is for answers that
-- end too early.
unfoldable pub write_full : List Answer → Bytes → Bytes → Outcome × Bytes
write_full answers [] sent = (done, sent)
write_full [] (b ∷ p) sent = (waiting, sent)
write_full (failed ∷ answers) (b ∷ p) sent = (write_error, sent)
write_full (took zero ∷ answers) (b ∷ p) sent = (short_write, sent)
write_full (took (suc n) ∷ answers) (b ∷ p) sent =
    write_full answers (drop n p) (sent ++ b ∷ take n p)

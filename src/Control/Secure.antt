-- ===== src/Control/Secure.antt =====
-- The encrypted channel of internal/control/secure.go over an AEAD, whose key derivation is not
-- modelled: `Seal` and `Open` under one key are the fields of a record.
pub mod Plain
pub mod Channel
pub mod Accepting
pub mod Streams
use gremlind.Prelude.{
  ℕ, suc, ◌+◌, ◌-◌, ◌%◌, ◌^◌, Bool, true, false, not, Option, none, some, List, [], ◌∷◌, ◌++◌,
  Result, ok, err, length, take, drop, ltb, ◌==◌, nat_eq, if◌then◌else◌,
}
use gremlind.Prelude.Bytes.{Bytes, be_bytes, be_value}
use gremlind.Control.Proto.{
  MsgType, Message, encrypted, proto_version, type_byte, message_type, new_message,
}
use gremlind.Control.Codec
use gremlind.Control.Codec.{unmarshal_payload}
use gremlind.Control.Frame.{
  Error, end_of_input, unsupported_version, length_mismatch, invalid_encrypted_type, bad_payload,
  expected_encrypted, decrypt_failed, frame_header_len, frame, byte_at, write_message, read_message,
}

-- `cipher.AEAD` with its key: `Seal` and `Open` of a nonce and a text, without additional data.
pub record Aead : Type 0 where
  pub seal : Bytes → Bytes → Bytes
  pub unseal : Bytes → Bytes → Option Bytes

-- `secureChannel`. The stream is an argument of the operations.
pub record SecureChannel : Type 0 where
  pub read_key : Aead
  pub write_key : Aead
  pub read_seq : ℕ
  pub write_seq : ℕ

-- `seqNonce`
unfoldable pub seq_nonce : ℕ → Bytes
seq_nonce seq = be_bytes 4 0 ++ be_bytes 8 seq

-- `marshalPlainFrame`: the bytes that `WriteMessage` builds, without its test of the length.
unfoldable pub marshal_plain_frame : Message → Bytes
marshal_plain_frame m = frame m

unfoldable pub is_encrypted : MsgType → Bool
is_encrypted MsgType.encrypted = true
is_encrypted _ = false

abbrev pub decoded_plain : Result Codec.Error Message → Result Error Message
decoded_plain (ok m) = ok m
decoded_plain (err e) = err (bad_payload e)

-- The payload behind a header that is accepted.
unfoldable pub plain_payload : Option MsgType → ℕ → Bytes → Result Error Message
unfolding is_encrypted
plain_payload none b s = err (invalid_encrypted_type b)
plain_payload (some t) b s =
    if is_encrypted t then err (invalid_encrypted_type b) else decoded_plain (unmarshal_payload t s)

-- `unmarshalPlainFrame`
unfoldable pub unmarshal_plain_frame : Bytes → Result Error Message
unfolding plain_payload
unmarshal_plain_frame s =
    if ltb (length s) frame_header_len
    then err end_of_input
    else if not (byte_at 2 s == proto_version)
    then err (unsupported_version (byte_at 2 s))
    else if not (be_value (take 2 s) == length s - frame_header_len)
    then err length_mismatch
    else plain_payload (new_message (byte_at 3 s)) (byte_at 3 s) (drop frame_header_len s)

-- `secureChannel.WriteMessage`, up to the bytes for `writeFull`. The counter is a uint64.
unfoldable pub write_secure : SecureChannel → Message → SecureChannel × Result Error Bytes
unfolding seq_nonce marshal_plain_frame
write_secure c m =
    let ciphertext = c.write_key.seal (seq_nonce c.write_seq) (marshal_plain_frame m) in
    (
      record c { write_seq = suc c.write_seq % 2 ^ 64 },
      write_message (encrypted (record { ciphertext = ciphertext })),
    )

-- What an opened envelope leads to.
abbrev pub accept_plain :
    SecureChannel → Bytes → Option Bytes → SecureChannel × Result Error (Message × Bytes)
accept_plain c rest none = (c, err decrypt_failed)
accept_plain c rest (some plain) = (
  record c { read_seq = suc c.read_seq % 2 ^ 64 },
  elim (unmarshal_plain_frame plain) [ ok m ↦ ok (m, rest) | err e ↦ err e ],
)

-- The envelope that the outer frame must be.
abbrev pub envelope : Message → Option Bytes
envelope (encrypted m) = some m.ciphertext
envelope _ = none

abbrev pub accept_envelope :
    SecureChannel → Bytes → Option Bytes → SecureChannel × Result Error (Message × Bytes)
accept_envelope c rest none = (c, err expected_encrypted)
accept_envelope c rest (some ciphertext) =
    accept_plain c rest (c.read_key.unseal (seq_nonce c.read_seq) ciphertext)

-- `secureChannel.ReadMessage`: the message and the bytes that are left.
unfoldable pub read_secure : SecureChannel → Bytes → SecureChannel × Result Error (Message × Bytes)
unfolding seq_nonce unmarshal_plain_frame
read_secure c s = elim (read_message s) [
  | err e ↦ (c, err e)
  | ok (outer, rest) ↦ accept_envelope c rest (envelope outer)
]

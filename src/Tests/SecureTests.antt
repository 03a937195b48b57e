-- ===== src/Tests/SecureTests.antt =====
-- internal/control/secure.go over a toy AEAD that puts one byte in front of a text.
use gremlind.Prelude.{
  ℕ, ◌≡◌, refl, subst, Option, none, some, ◌∷◌, [], ◌++◌, ok, arith, All, ◌==◌, nat_eq,
  if◌then◌else◌,
}
use gremlind.Prelude.Bytes.{Bytes, IsByte, be_bytes, be_value}
use gremlind.Control.Proto.{Message, echo, message_type, type_byte, new_message}
use gremlind.Control.Codec
use gremlind.Control.Codec.{marshal_payload, unmarshal_payload}
use gremlind.Control.Frame.{frame, write_message, read_message}
use gremlind.Control.Secure.{Aead, SecureChannel, write_secure, read_secure, is_encrypted}
use gremlind.Control.Secure.Plain.{Carries}
use gremlind.Control.Secure.Channel.{IsAead, InStep}
use gremlind.Control.Secure.Accepting.{read_secure-only}
use gremlind.Control.Secure.Streams.{write_all, read_all, read-write_all}

pub toy_unseal : Bytes → Bytes → Option Bytes
toy_unseal n [] = none
toy_unseal n (t ∷ p) = if t == 7 then some p else none

abbrev pub toy : Aead
toy = record { seal = λ n p. 7 ∷ p; unseal = toy_unseal }

pub toy-IsAead : IsAead toy
unfolding toy_unseal
toy-IsAead = record {
  opens = λ n p. refl;
  only = only;
  seals_bytes = λ n p h. (omega arith, h);
  opens_bytes = opens_bytes;
}
  where
    only : (n c p : Bytes) → toy_unseal n c ≡ some p → c ≡ 7 ∷ p
    only n [] p h = cc
    only n (t ∷ c) p h = ground (arith, h)

    opens_bytes : (n c p : Bytes) → All IsByte c → toy_unseal n c ≡ some p → All IsByte p
    opens_bytes n [] p a h = cc
    opens_bytes n (t ∷ c) p a h =
        let same : c ≡ p = ground (arith, h) in subst (All IsByte) same a.1

abbrev start : SecureChannel
start = record { read_key = toy; write_key = toy; read_seq = 0; write_seq = 0 }

abbrev ping : Message
ping = echo (record { seq = 1 })

ping-Carries : Carries ping
unfolding Codec.enc_u32 be_bytes message_type
ping-Carries = record {
  well_formed = omega arith;
  short = unfold marshal_payload in omega arith;
  inner = unfold is_encrypted in refl;
}

abbrev ping_frame : Bytes
ping_frame = 0 ∷ 4 ∷ 2 ∷ 6 ∷ 0 ∷ 0 ∷ 0 ∷ 1 ∷ []

abbrev ping_sealed : Bytes
ping_sealed = 0 ∷ 11 ∷ 2 ∷ 9 ∷ 0 ∷ 9 ∷ 7 ∷ ping_frame

in_step : InStep start start
in_step = record { key = refl; seq = refl }

ping_sent : (write_secure start ping).1 ≡ ok ping_sealed
unfolding write_secure write_message marshal_payload Codec.enc_bytes be_bytes frame Codec.enc_u32
    type_byte message_type
ping_sent = refl

ping_read : (read_secure start ping_sealed).1 ≡ ok (ping, [])
unfolding read_secure read_message be_value new_message unmarshal_payload toy_unseal
ping_read = refl

abbrev two_sealed : Bytes
two_sealed = ping_sealed ++ ping_sealed

two_sent : (write_all start (ping ∷ ping ∷ [])).1 ≡ ok two_sealed
unfolding write_all write_secure write_message marshal_payload Codec.enc_bytes be_bytes frame
    Codec.enc_u32 type_byte message_type
two_sent = refl

abbrev first_seq : ℕ
first_seq = 0

read_secure-only_example :
    (out : Bytes) × Carries ping
    × ((write_secure start ping).1 ≡ ok out)
    × (ping_sealed ≡ out ++ [])
read_secure-only_example =
    read_secure-only start start in_step toy-IsAead ping_sealed ping [] (omega arith) ping_read

read-write_all_example : (read_all 2 start (two_sealed ++ 5 ∷ [])).1 ≡ ok (ping ∷ ping ∷ [], 5 ∷ [])
read-write_all_example =
    read-write_all start start (ping ∷ ping ∷ []) two_sealed (5 ∷ []) in_step toy-IsAead
      (ping-Carries, (ping-Carries, tt)) two_sent

-- ===== src/Control/Secure/Channel.antt =====
-- The two ends of the encrypted channel of internal/control/secure.go in lockstep.
use gremlind.Prelude.{
  ℕ, suc, ◌%◌, ◌^◌, ◌<◌, ◌≡◌, refl, sym, ap, subst, ◌∙◌, some, ◌++◌, ok, drop, drop-append, All,
}
use gremlind.Prelude.Bytes.{Bytes, IsByte, be_bytes, be_value, be_value-be_bytes}
use gremlind.Control.Proto.{Message, Encrypted, encrypted}
use gremlind.Control.Frame.{max_payload, read_message}
use gremlind.Control.Frame.Exact.{write_message-inv}
use gremlind.Control.Frame.Typed.{read-written}
use gremlind.Control.Secure.{
  Aead, SecureChannel, seq_nonce, marshal_plain_frame, unmarshal_plain_frame, write_secure,
  read_secure,
}
use gremlind.Control.Secure.Plain.{Carries, marshal_plain_frame-IsByte, unmarshal-plain_frame}

-- What the channel relies on: `Open` undoes `Seal`, it accepts nothing that `Seal` does not make of
-- its result, and texts are bytes.
pub record IsAead (k : Aead) : Type 0 where
  pub opens : (n p : Bytes) → k.unseal n (k.seal n p) ≡ some p
  pub only : (n c p : Bytes) → k.unseal n c ≡ some p → c ≡ k.seal n p
  pub seals_bytes : (n p : Bytes) → All IsByte p → All IsByte (k.seal n p)
  pub opens_bytes : (n c p : Bytes) → All IsByte c → k.unseal n c ≡ some p → All IsByte p

-- The writing end `c` and the reading end `d` of one direction.
pub record InStep (c d : SecureChannel) : Type 0 where
  pub key : d.read_key ≡ c.write_key
  pub seq : d.read_seq ≡ c.write_seq

-- Two sequence numbers below 2^64 that have the same nonce are the same: a channel uses no nonce
-- twice before its counter wraps around.
pub seq_nonce-injective : (i j : ℕ) → i < 2 ^ 64 → j < 2 ^ 64 → seq_nonce i ≡ seq_nonce j → i ≡ j
unfolding seq_nonce be_bytes
seq_nonce-injective i j il jl same =
    let tails : be_bytes 8 i ≡ be_bytes 8 j =
      sym (drop-append (be_bytes 4 0) (be_bytes 8 i))
      ∙ ap (drop 4) same
      ∙ drop-append (be_bytes 4 0) (be_bytes 8 j) in
    sym (be_value-be_bytes 8 i il) ∙ ap be_value tails ∙ be_value-be_bytes 8 j jl

-- The steps of a read that succeeds.
read_secure_steps :
    (d : SecureChannel) (s rest : Bytes) (e : Encrypted) (plain : Bytes) (m : Message)
    → read_message s ≡ ok (encrypted e, rest)
    → d.read_key.unseal (seq_nonce d.read_seq) e.ciphertext ≡ some plain
    → unmarshal_plain_frame plain ≡ ok m
    → read_secure d s ≡ (record d { read_seq = suc d.read_seq % 2 ^ 64 }, ok (m, rest))
unfolding read_secure
read_secure_steps d s rest e plain m outer opened inner =
    rw (outer, read_secure) (rw opened (rw inner refl))

module _ (c d : SecureChannel) (step : InStep c d) (law : IsAead c.write_key) where
  sealed : Message → Bytes
  sealed m = c.write_key.seal (seq_nonce c.write_seq) (marshal_plain_frame m)

  read_envelope :
      (m : Message) (out rest : Bytes)
      → Carries m
      → (write_secure c m).1 ≡ ok out
      → read_message (out ++ rest) ≡ ok (encrypted (record { ciphertext = sealed m }), rest)
  unfolding sealed read_message write_secure
  read_envelope m out rest carries sent =
      let env : Message = encrypted (record { ciphertext = sealed m }) in
      read-written env out rest max_payload
        (law.seals_bytes (seq_nonce c.write_seq) (marshal_plain_frame m)
          (marshal_plain_frame-IsByte m carries))
        sent (write_message-inv env out sent).0

  opened :
      (m : Message)
      → d.read_key.unseal (seq_nonce d.read_seq) (sealed m) ≡ some (marshal_plain_frame m)
  unfolding sealed
  opened m =
      ap (λ k. k.unseal (seq_nonce d.read_seq) (sealed m)) step.key
      ∙ ap (λ n. c.write_key.unseal (seq_nonce n) (sealed m)) step.seq
      ∙ law.opens (seq_nonce c.write_seq) (marshal_plain_frame m)

  -- A message that one end sends is what the other end reads, with what follows it left in the
  -- stream, and the two ends stay in step.
  pub read-write_secure :
      (m : Message) (out rest : Bytes)
      → Carries m
      → (write_secure c m).1 ≡ ok out
      → (read_secure d (out ++ rest)
          ≡ (record d { read_seq = suc d.read_seq % 2 ^ 64 }, ok (m, rest)))
        × InStep (write_secure c m).0 (read_secure d (out ++ rest)).0
  unfolding write_secure
  read-write_secure m out rest carries sent =
      let read : read_secure d (out ++ rest)
          ≡ (record d { read_seq = suc d.read_seq % 2 ^ 64 }, ok (m, rest)) =
        read_secure_steps d (out ++ rest) rest (record { ciphertext = sealed m })
          (marshal_plain_frame m) m (read_envelope m out rest carries sent) (opened m)
          (unmarshal-plain_frame m carries) in
      (
        read,
        subst (λ r. InStep (write_secure c m).0 r.0) (sym read)
            (record { key = step.key; seq = ap (λ n. suc n % 2 ^ 64) step.seq }),
      )

-- ===== src/Control/Secure/Accepting.antt =====
-- What a read on the channel of internal/control/secure.go accepts.
use gremlind.Prelude.{
  ◌≡◌, refl, sym, ap, subst, ◌∙◌, Option, none, some, ◌++◌, ok, err, All, inl, inr, Result-cases,
}
use gremlind.Prelude.Bytes.{Bytes, IsByte}
use gremlind.Control.Proto.{Message, Encrypted, encrypted, IsWellFormed}
use gremlind.Control.Frame.{max_payload, write_message, read_message}
use gremlind.Control.Frame.Exact.{read-write}
use gremlind.Control.Secure.{
  SecureChannel, seq_nonce, marshal_plain_frame, unmarshal_plain_frame, write_secure, read_secure,
  envelope, accept_envelope, accept_plain,
}
use gremlind.Control.Secure.Plain.{Carries, unmarshal_plain_frame_iff}
use gremlind.Control.Secure.Channel.{IsAead, InStep}

-- What a read that succeeds has gone through.
Opened : SecureChannel → Message → Bytes → Message → Bytes → Type 0
Opened d outer left m rest =
    (e : Encrypted) × (plain : Bytes) × (outer ≡ encrypted e)
    × (d.read_key.unseal (seq_nonce d.read_seq) e.ciphertext ≡ some plain)
    × (unmarshal_plain_frame plain ≡ ok m)
    × (left ≡ rest)

accept_plain-inv :
    (d : SecureChannel) (left : Bytes) (o : Option Bytes) (m : Message) (rest : Bytes)
    → (accept_plain d left o).1 ≡ ok (m, rest)
    → (plain : Bytes) × (o ≡ some plain) × (unmarshal_plain_frame plain ≡ ok m) × (left ≡ rest)
accept_plain-inv d left none m rest h = cc
accept_plain-inv d left (some plain) m rest h = elim (Result-cases (unmarshal_plain_frame plain)) [
  | inl (x, e) ↦
      let both : ok (x, left) ≡ ok (m, rest) = rw (e, accept_plain) at h in
      let same : x ≡ m = cc in let tail : left ≡ rest = cc in (plain, refl, e ∙ ap ok same, tail)
  | inr (x, e) ↦ let both : err x ≡ ok (m, rest) = rw (e, accept_plain) at h in cc
]

accept_envelope-inv :
    (d : SecureChannel) (outer : Message) (left : Bytes) (m : Message) (rest : Bytes)
    → (accept_envelope d left (envelope outer)).1 ≡ ok (m, rest)
    → Opened d outer left m rest
unfolding Opened
accept_envelope-inv d (encrypted e) left m rest h =
    let (plain, opened, inner, tail) =
      accept_plain-inv d left (d.read_key.unseal (seq_nonce d.read_seq) e.ciphertext) m rest h in
    (e, plain, refl, opened, inner, tail)
accept_envelope-inv d _ left m rest h = cc

Opened-tail :
    (d : SecureChannel) (outer : Message) (left : Bytes) (m : Message) (rest : Bytes)
    → Opened d outer left m rest
    → left ≡ rest
unfolding Opened
Opened-tail d outer left m rest (e, plain, is, opened, inner, tail) = tail

read_secure-inv :
    (d : SecureChannel) (s : Bytes) (m : Message) (rest : Bytes)
    → (read_secure d s).1 ≡ ok (m, rest)
    → (outer : Message) × (read_message s ≡ ok (outer, rest)) × Opened d outer rest m rest
unfolding read_secure
read_secure-inv d s m rest h = elim (Result-cases (read_message s)) [
  | inl ((outer, left), e) ↦
      let step : (accept_envelope d left (envelope outer)).1 ≡ ok (m, rest) =
        rw (e, read_secure) at h in
      let opened = accept_envelope-inv d outer left m rest step in
      let tail = Opened-tail d outer left m rest opened in
      (outer, e ∙ ap (λ x. ok (outer, x)) tail, subst (λ x. Opened d outer x m rest) tail opened)
  | inr (x, e) ↦ let step : err x ≡ ok (m, rest) = rw (e, read_secure) at h in cc
]

module _ (c d : SecureChannel) (step : InStep c d) (law : IsAead c.write_key) where
  -- Under an AEAD that keeps its laws, the reading end accepts from a byte stream nothing but what
  -- the writing end in step with it would send: the stream then starts with the frame that
  -- `WriteMessage` makes of the message that is returned, and what follows is left.
  pub read_secure-only :
      (s : Bytes) (m : Message) (rest : Bytes)
      → All IsByte s
      → (read_secure d s).1 ≡ ok (m, rest)
      → (out : Bytes) × Carries m × ((write_secure c m).1 ≡ ok out) × (s ≡ out ++ rest)
  unfolding Opened write_secure read_message
  read_secure-only s m rest a h =
      let (outer, read, (e, plain, is, opened, inner, _)) = read_secure-inv d s m rest h in
      let (out, w, _, sent, split) = (read-write s max_payload outer rest a).0 read in
      let (short, bytes) : IsWellFormed (encrypted e) = subst IsWellFormed is w in
      let unsealed : c.write_key.unseal (seq_nonce c.write_seq) e.ciphertext ≡ some plain =
        ap (λ n. c.write_key.unseal (seq_nonce n) e.ciphertext) (sym step.seq)
        ∙ ap (λ k. k.unseal (seq_nonce d.read_seq) e.ciphertext) (sym step.key)
        ∙ opened in
      let nonce = seq_nonce c.write_seq in
      let text = law.opens_bytes nonce e.ciphertext plain bytes unsealed in
      let (carries, frame_of) = (unmarshal_plain_frame_iff plain m text).0 inner in
      let cipher : e.ciphertext ≡ c.write_key.seal nonce (marshal_plain_frame m) =
        law.only nonce e.ciphertext plain unsealed ∙ ap (c.write_key.seal nonce) frame_of in
      (
        out,
        carries,
        ap (λ x. write_message (encrypted (record { ciphertext = x }))) (sym cipher)
            ∙ ap write_message (sym is)
            ∙ sent,
        split,
      )

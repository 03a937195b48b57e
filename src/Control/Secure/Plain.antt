-- ===== src/Control/Secure/Plain.antt =====
-- The plain frames inside the envelopes of internal/control/secure.go.
use gremlind.Prelude.{
  ℕ, ◌-◌, ◌%◌, ◌^◌, ◌≤◌, ◌≡◌, refl, sym, ap, ◌∙◌, ◌↔◌, true, false, Option, none, some, [], ◌∷◌,
  ◌++◌, Result, ok, err, arith, length, take, drop, All, All-append, ltb, ◌==◌, nat_eq, not-lt→ltb,
  Bool-cases, inl, inr,
}
use gremlind.Prelude.Bytes.{
  Bytes, IsByte, be_bytes, be_bytes-IsByte, be_value, be_value-be_bytes, be_bytes-be_value,
  be_value-lt,
}
use gremlind.Control.Proto.{
  MsgType, Message, IsWellFormed, proto_version, type_byte, message_type, new_message,
  new_message-type_byte, type_byte-new_message,
}
use gremlind.Control.Codec
use gremlind.Control.Codec.{marshal_payload, unmarshal_payload}
use gremlind.Control.Codec.Exact.{unmarshal-marshal, unmarshal-marshal_self}
use gremlind.Control.Codec.Octets.{marshal_payload-IsByte}
use gremlind.Control.Frame.{frame_header_len, max_payload, frame, byte_at}
use gremlind.Control.Secure.{
  marshal_plain_frame, unmarshal_plain_frame, plain_payload, decoded_plain, is_encrypted,
}

type_byte-IsByte : (t : MsgType) → IsByte (type_byte t)
unfolding type_byte
type_byte-IsByte t = ground arith

-- What a plain frame may carry.
pub record Carries (m : Message) : Type 0 where
  pub well_formed : IsWellFormed m
  pub short : length (marshal_payload m) ≤ max_payload
  pub inner : is_encrypted (message_type m) ≡ false

plain_payload_self :
    (m : Message)
    → Carries m
    → plain_payload
        (new_message (type_byte (message_type m)))
        (type_byte (message_type m))
        (marshal_payload m)
      ≡ ok m
unfolding plain_payload
plain_payload_self m c =
    rw (new_message-type_byte (message_type m), c.inner, unmarshal-marshal_self m c.well_formed)
      refl

-- A frame that passes the three tests.
plain_accepts :
    (s : Bytes)
    → ltb (length s) frame_header_len ≡ false
    → (byte_at 2 s == proto_version) ≡ true
    → (be_value (take 2 s) == length s - frame_header_len) ≡ true
    → unmarshal_plain_frame s
      ≡ plain_payload (new_message (byte_at 3 s)) (byte_at 3 s) (drop frame_header_len s)
unfolding unmarshal_plain_frame
plain_accepts s long version len = rw (long, version, len) refl

-- A plain frame in its parts.
plain_parts :
    (p : Bytes) (t : ℕ)
    → length p ≤ max_payload
    → unmarshal_plain_frame (be_bytes 2 (length p % 2 ^ 16) ++ proto_version ∷ t ∷ p)
      ≡ plain_payload (new_message t) t p
unfolding be_bytes
plain_parts p t short =
    plain_accepts (be_bytes 2 (length p % 2 ^ 16) ++ proto_version ∷ t ∷ p)
      (not-lt→ltb _ _ (omega arith)) refl
      ((nat_eq.decides _ _).1
        (be_value-be_bytes 2 (length p % 2 ^ 16) (omega arith) ∙ omega (arith, short)))

pub unmarshal-plain_frame :
    (m : Message) → Carries m → unmarshal_plain_frame (marshal_plain_frame m) ≡ ok m
unfolding marshal_plain_frame frame
unmarshal-plain_frame m c =
    plain_parts (marshal_payload m) (type_byte (message_type m)) c.short ∙ plain_payload_self m c

decoded_plain-inv :
    (r : Result Codec.Error Message) (m : Message) → decoded_plain r ≡ ok m → r ≡ ok m
decoded_plain-inv (ok x) m h = ground arith
decoded_plain-inv (err e) m h = cc

-- What a payload that is accepted says of the message.
Fits : ℕ → Bytes → Message → Type 0
Fits b s m =
    IsWellFormed m
    × (is_encrypted (message_type m) ≡ false)
    × (b ≡ type_byte (message_type m))
    × (s ≡ marshal_payload m)

plain_payload-inv :
    (o : Option MsgType) (b : ℕ) (s : Bytes) (m : Message)
    → All IsByte s
    → new_message b ≡ o
    → plain_payload o b s ≡ ok m
    → Fits b s m
unfolding plain_payload Fits
plain_payload-inv none b s m a e h = cc
plain_payload-inv (some t) b s m a e h = elim (Bool-cases (is_encrypted t)) [
  | inl sealed ↦ absurd (ground (arith, sealed, h))
  | inr inner ↦
      let good : decoded_plain (unmarshal_payload t s) ≡ ok m = ground (arith, inner, h) in
      let (w, ty, is) =
        (unmarshal-marshal t s m a).0 (decoded_plain-inv (unmarshal_payload t s) m good) in
      (
        w,
        ap is_encrypted ty ∙ inner,
        type_byte-new_message b (message_type m) (e ∙ ap some (sym ty)),
        is,
      )
]

unmarshal_plain_frame-inv :
    (s : Bytes) (m : Message)
    → All IsByte s
    → unmarshal_plain_frame s ≡ ok m
    → Carries m × (s ≡ marshal_plain_frame m)
unfolding unmarshal_plain_frame marshal_plain_frame frame Fits
unmarshal_plain_frame-inv (x ∷ y ∷ v ∷ t ∷ p) m a h =
    let version : v ≡ proto_version = ground (arith, h) in
    let len : be_value (x ∷ y ∷ []) ≡ length p = ground (arith, h) in
    let body : plain_payload (new_message t) t p ≡ ok m = ground (arith, h) in
    let (w, inner, ty, is) = plain_payload-inv (new_message t) t p m a.1.1.1.1 refl body in
    let fits = be_value-lt (x ∷ y ∷ []) (a.0, (a.1.0, tt)) in
    let word = be_bytes-be_value (x ∷ y ∷ []) (a.0, (a.1.0, tt)) in
    let same : length (marshal_payload m) % 2 ^ 16 ≡ be_value (x ∷ y ∷ []) =
      omega (arith, ap length is, len, fits) in
    (
      record { well_formed = w; short = omega (arith, ap length is, len, fits); inner = inner },
      rw (same, word, version, ty, is) refl,
    )
unmarshal_plain_frame-inv [] m a h = cc
unmarshal_plain_frame-inv (x ∷ []) m a h = cc
unmarshal_plain_frame-inv (x ∷ y ∷ []) m a h = cc
unmarshal_plain_frame-inv (x ∷ y ∷ z ∷ []) m a h = cc

-- `unmarshalPlainFrame` accepts a byte sequence exactly if it is the plain frame of a well-formed
-- message that is not itself an envelope, and returns that message.
pub unmarshal_plain_frame_iff :
    (s : Bytes) (m : Message)
    → All IsByte s
    → (unmarshal_plain_frame s ≡ ok m) ↔ (Carries m × (s ≡ marshal_plain_frame m))
unmarshal_plain_frame_iff s m a = (
  unmarshal_plain_frame-inv s m a,
  λ r. ap unmarshal_plain_frame r.1 ∙ unmarshal-plain_frame m r.0,
)

pub marshal_plain_frame-IsByte : (m : Message) → Carries m → All IsByte (marshal_plain_frame m)
unfolding marshal_plain_frame frame
marshal_plain_frame-IsByte m c =
    All-append IsByte (be_bytes 2 (length (marshal_payload m) % 2 ^ 16)) _ (be_bytes-IsByte 2 _)
      (omega arith, (type_byte-IsByte (message_type m), marshal_payload-IsByte m c.well_formed))

-- ===== src/Control/Frame/Exact.antt =====
-- What `ReadMessageLimited` accepts is what `WriteMessage` sends, frame by frame.
use mathlib.Core.List.{append_assoc}
use gremlind.Prelude.{
  ℕ, ◌+◌, ◌*◌, ◌/◌, ◌%◌, ◌^◌, ◌<◌, ◌≤◌, ◌≡◌, refl, sym, ap, ◌∙◌, ◌↔◌, Option, none, some, [], ◌∷◌,
  ◌++◌, Result, ok, err, arith, length, take, drop, All, All-take, All-drop, length-append,
  length-take, take-append, drop-append, take-append-drop, nat_eq, dec_lt, lt→ltb, not-lt→ltb,
  >>=-eq-ok,
}
use gremlind.Prelude.Bytes.{Bytes, IsByte, be_bytes, be_value, be_bytes-be_value, be_value-lt}
use gremlind.Control.Proto.{
  MsgType, Message, IsWellFormed, proto_version, supported_protocol_version, type_byte,
  message_type, new_message, new_message-type_byte, type_byte-new_message,
}
use gremlind.Control.Codec
use gremlind.Control.Codec.{marshal_payload, unmarshal_payload}
use gremlind.Control.Codec.Exact.{unmarshal-marshal, unmarshal-marshal_self}
use gremlind.Control.Frame.{
  frame_header_len, max_payload, frame, write_message, read_full, byte_at, decoded, read_payload,
  accept_header, read_message_limited,
}

read_full-append :
    (n : ℕ) (out rest : Bytes) → length out ≡ n → read_full n (out ++ rest) ≡ ok (out, rest)
unfolding read_full
read_full-append n out rest e =
    rw (not-lt→ltb (length (out ++ rest)) n (omega (arith, length-append out rest)), ← e)
      (rw (take-append out rest, drop-append out rest))

-- A header in its parts.
read_header :
    (n v t : ℕ) (rest : Bytes) (max : ℕ)
    → n < 2 ^ 16
    → read_message_limited (be_bytes 2 n ++ v ∷ t ∷ rest) max ≡ accept_header max n v t rest
unfolding read_message_limited be_bytes be_value
read_header n v t rest max fits =
    let word : (0 * 256 + n / 256 % 256) * 256 + n % 256 ≡ n = omega arith in
    rw (read_full-append 4 (n / 256 % 256 ∷ n % 256 ∷ v ∷ t ∷ []) rest refl) (rw word)

-- Reading back what was written.
pub read_message_limited-frame :
    (m : Message) (max : ℕ) (rest : Bytes)
    → IsWellFormed m
    → length (marshal_payload m) ≤ max
    → length (marshal_payload m) ≤ max_payload
    → read_message_limited (frame m ++ rest) max ≡ ok (m, rest)
unfolding frame
read_message_limited-frame m max rest w fits short =
    let payload = marshal_payload m in
    let same : length payload % 2 ^ 16 ≡ length payload = omega (arith, short) in
    rw
      (
        same,
        append_assoc (be_bytes 2 (length payload))
            (proto_version ∷ type_byte (message_type m) ∷ payload) rest,
        read_header (length payload) proto_version (type_byte (message_type m)) (payload ++ rest)
            max (omega arith),
      )
      (unfold accept_header supported_protocol_version read_payload in
        rw (
          not-lt→ltb max (length payload) (omega arith),
          new_message-type_byte (message_type m),
          read_full-append (length payload) payload rest refl,
          unmarshal-marshal_self m w,
        ))

read_full-inv :
    (n : ℕ) (s out rest : Bytes)
    → All IsByte s
    → read_full n s ≡ ok (out, rest)
    → (length out ≡ n) × (s ≡ out ++ rest) × All IsByte out × All IsByte rest
unfolding read_full
read_full-inv n s out rest a h = elim (dec_lt (length s) n) [
  | yes short ↦ absurd (ground (arith, lt→ltb (length s) n short))
  | no long ↦
      let front : take n s ≡ out = ground arith in
      let back : drop n s ≡ rest = ground arith in
      rw (← front, ← back)
        (
          omega (arith, length-take n s),
          sym (take-append-drop n s),
          All-take IsByte n s a,
          All-drop IsByte n s a,
        )
]

decoded-inv :
    (left : Bytes) (r : Result Codec.Error Message) (m : Message) (rest : Bytes)
    → decoded left r ≡ ok (m, rest)
    → (r ≡ ok m) × (left ≡ rest)
decoded-inv left (ok x) m rest h = ground arith
decoded-inv left (err e) m rest h = cc

-- The payload that was read belongs to a well-formed message of the header's type.
read_payload-inv :
    (o : Option MsgType) (b n : ℕ) (s : Bytes) (m : Message) (rest : Bytes)
    → All IsByte s
    → read_payload o b n s ≡ ok (m, rest)
    → IsWellFormed m
      × (o ≡ some (message_type m))
      × (n ≡ length (marshal_payload m))
      × (s ≡ marshal_payload m ++ rest)
unfolding read_payload
read_payload-inv none b n s m rest a h = cc
read_payload-inv (some t) b n s m rest a h =
    let ((payload, left), e, f) = >>=-eq-ok (read_full n s) _ h in
    let (len, split, bytes, _) = read_full-inv n s payload left a e in
    let (good, tail) = decoded-inv left (unmarshal_payload t payload) m rest f in
    let (w, ty, is) = (unmarshal-marshal t payload m bytes).0 good in
    (w, ap some (sym ty), rw is at (sym len), rw (is, tail) at split)

accept_header-inv :
    (max n v t : ℕ) (s : Bytes) (m : Message) (rest : Bytes)
    → All IsByte s
    → accept_header max n v t s ≡ ok (m, rest)
    → IsWellFormed m
      × (v ≡ proto_version)
      × (t ≡ type_byte (message_type m))
      × (n ≤ max)
      × (n ≡ length (marshal_payload m))
      × (s ≡ marshal_payload m ++ rest)
unfolding accept_header supported_protocol_version
accept_header-inv max n v t s m rest a h =
    let (w, ty, len, split) = read_payload-inv (new_message t) t n s m rest a (ground arith) in
    (w, ground arith, type_byte-new_message t (message_type m) ty, ground arith, len, split)

of_header :
    (hdr s : Bytes) (max : ℕ) (m : Message) (rest : Bytes)
    → length hdr ≡ 4
    → All IsByte hdr
    → All IsByte s
    → accept_header max (be_value (take 2 hdr)) (byte_at 2 hdr) (byte_at 3 hdr) s ≡ ok (m, rest)
    → IsWellFormed m
      × (length (marshal_payload m) ≤ max)
      × (length (marshal_payload m) ≤ max_payload)
      × (hdr ++ s ≡ frame m ++ rest)
unfolding frame
of_header (x ∷ y ∷ v ∷ t ∷ []) s max m rest len b a h =
    let (w, vv, tt', le, n, split) =
      accept_header-inv max (be_value (x ∷ y ∷ [])) v t s m rest a h in
    let fits = be_value-lt (x ∷ y ∷ []) (b.0, (b.1.0, tt)) in
    let word = be_bytes-be_value (x ∷ y ∷ []) (b.0, (b.1.0, tt)) in
    let same : length (marshal_payload m) % 2 ^ 16 ≡ be_value (x ∷ y ∷ []) =
      omega (arith, n, fits) in
    (w, omega (arith, n, le), omega (arith, n, fits), rw (same, word, vv, tt', split))
of_header [] s max m rest len b a h = absurd (omega arith)
of_header (x ∷ []) s max m rest len b a h = absurd (omega arith)
of_header (x ∷ y ∷ []) s max m rest len b a h = absurd (omega arith)
of_header (x ∷ y ∷ v ∷ []) s max m rest len b a h = absurd (omega arith)
of_header (x ∷ y ∷ v ∷ t ∷ z ∷ l) s max m rest len b a h = absurd (omega arith)

read_message_limited-inv :
    (s : Bytes) (max : ℕ) (m : Message) (rest : Bytes)
    → All IsByte s
    → read_message_limited s max ≡ ok (m, rest)
    → IsWellFormed m
      × (length (marshal_payload m) ≤ max)
      × (length (marshal_payload m) ≤ max_payload)
      × (s ≡ frame m ++ rest)
unfolding read_message_limited
read_message_limited-inv s max m rest a h =
    let ((hdr, body), e, f) = >>=-eq-ok (read_full frame_header_len s) _ h in
    let (len, split, hb, bb) = read_full-inv frame_header_len s hdr body a e in
    let (w, le, short, is) = of_header hdr body max m rest len hb bb f in (w, le, short, split ∙ is)

pub write_message-inv :
    (m : Message) (out : Bytes)
    → write_message m ≡ ok out
    → (length (marshal_payload m) ≤ max_payload) × (out ≡ frame m)
unfolding write_message
write_message-inv m out h = ground arith

-- `ReadMessageLimited` accepts a byte stream exactly if it starts with what `WriteMessage` sends for
-- a well-formed message whose payload is within the limit; it returns that message and leaves the
-- bytes behind its frame.
pub read-write :
    (s : Bytes) (max : ℕ) (m : Message) (rest : Bytes)
    → All IsByte s
    → (read_message_limited s max ≡ ok (m, rest)) ↔ (
        (out : Bytes) × IsWellFormed m
        × (length (marshal_payload m) ≤ max)
        × (write_message m ≡ ok out)
        × (s ≡ out ++ rest))
unfolding write_message
read-write s max m rest a = (
  λ h.
      let (w, le, short, is) = read_message_limited-inv s max m rest a h in
      (
        frame m,
        w,
        le,
        rw (not-lt→ltb max_payload (length (marshal_payload m)) (omega (arith, short))),
        is,
      ),
  λ r.
      let (out, w, le, sent, is) = r in
      let (short, same) = write_message-inv m out sent in
      rw (is, same) (read_message_limited-frame m max rest w le short),
)

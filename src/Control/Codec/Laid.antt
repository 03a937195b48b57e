-- ===== src/Control/Codec/Laid.antt =====
-- What the grammar of the payloads of internal/control/codec.go reads, and from which bytes.
use gremlind.Prelude.{ℕ, ◌^◌, ◌<◌, ◌≡◌, refl, some_pair, sym, subst, subst₂, some, arith, All}
use gremlind.Prelude.Bytes.{Bytes, IsByte, be_bytes}
use gremlind.Net.{Addr}
use gremlind.Control.Proto.{
  MsgType, Message, session_reply, SessionReply, Short, IsWellFormed, message_type,
}
use gremlind.Control.Codec.Grammar
use gremlind.Control.Codec.Grammar.{Parser, run, word, text, addr, payload, reply_tail, bind_parsed}
use gremlind.Control.Codec.Fields.{text_bytes}
use gremlind.Control.Codec.Inversion.{
  Starts, bind_parsed-some, word-inv, text-inv, addr-inv, Starts-append,
}
use gremlind.Control.Codec.Layout.{reply_tail_layout, layout}

-- What the grammar reads as a message of a type is well-formed, of that type, and was laid out so.
abbrev pub Laid : MsgType → Bytes → Message → Bytes → Type 0
Laid t s m rest = IsWellFormed m × (message_type m ≡ t) × Starts s (layout m) rest

pub text_message :
    (t : MsgType) (c : Bytes → Message)
    → ((x : Bytes)
        → Short x
        → (s rest : Bytes) → Starts s (text_bytes x) rest
        → Laid t s (c x) rest)
    → (s : Bytes) (m : Message) (rest : Bytes) → All IsByte s
    → bind_parsed (text s) (λ x. Grammar.pure (c x)) ≡ some (m, rest)
    → Laid t s m rest
text_message t c make s m rest a h =
    let (x, u, e, f) = bind_parsed-some (text s) (λ x. Grammar.pure (c x)) h in
    let (w, st) = text-inv s x u a e in
    let (value, tail) = some_pair f in subst₂ (Laid t s) value tail (make x w s u st)

pub word_message :
    (t : MsgType) (c : ℕ → Message)
    → ((x : ℕ) → x < 2 ^ 32 → (s rest : Bytes) → Starts s (be_bytes 4 x) rest → Laid t s (c x) rest)
    → (s : Bytes) (m : Message) (rest : Bytes) → All IsByte s
    → bind_parsed (word 4 s) (λ x. Grammar.pure (c x)) ≡ some (m, rest)
    → Laid t s m rest
word_message t c make s m rest a h =
    let (x, u, e, f) = bind_parsed-some (word 4 s) (λ x. Grammar.pure (c x)) h in
    let (w, st) = word-inv 4 s x u a e in
    let (value, tail) = some_pair f in subst₂ (Laid t s) value tail (make x (omega arith) s u st)

reply_tail_inv :
    (result : ℕ) (client_inner server_inner server_outer : Addr) (s : Bytes) (m : Message)
    (rest : Bytes)
    → All IsByte s
    → reply_tail result client_inner server_inner server_outer s ≡ some (m, rest)
    → (r : SessionReply) × (m ≡ session_reply r)
      × (r.result ≡ result)
      × (r.client_inner ≡ client_inner)
      × (r.server_inner ≡ server_inner)
      × (r.server_outer ≡ server_outer)
      × (r.gre_key < 2 ^ 32)
      × (r.tunnel_flags < 2 ^ 32)
      × (r.mtu < 2 ^ 16)
      × Short r.message
      × Short r.server_mac
      × Starts s (reply_tail_layout r) rest
unfolding reply_tail
reply_tail_inv result ci si so s m rest a h =
    let (gre_key, s5, e5, h5) = bind_parsed-some (word 4 s) _ h in
    let (w5, x5) = word-inv 4 s gre_key s5 a e5 in
    let (flags, s6, e6, h6) = bind_parsed-some (word 4 s5) _ h5 in
    let (w6, x6) = word-inv 4 s5 flags s6 x5.bytes e6 in
    let (mtu, s7, e7, h7) = bind_parsed-some (word 2 s6) _ h6 in
    let (w7, x7) = word-inv 2 s6 mtu s7 x6.bytes e7 in
    let (message, s8, e8, h8) = bind_parsed-some (text s7) _ h7 in
    let (w8, x8) = text-inv s7 message s8 x7.bytes e8 in
    let (mac, s9, e9, h9) = bind_parsed-some (text s8) _ h8 in
    let (w9, x9) = text-inv s8 mac s9 x8.bytes e9 in
    let (same, tail) = some_pair h9 in
    let starts = Starts-append x5 (Starts-append x6 (Starts-append x7 (Starts-append x8 x9))) in
    (
      record {
        result = result;
        client_inner = ci;
        server_inner = si;
        server_outer = so;
        gre_key = gre_key;
        tunnel_flags = flags;
        mtu = mtu;
        message = message;
        server_mac = mac;
      },
      sym same,
      refl,
      refl,
      refl,
      refl,
      omega arith,
      omega arith,
      omega arith,
      w8,
      w9,
      subst (Starts s _) tail starts,
    )

pub session_reply_inv :
    (s : Bytes) (m : Message) (rest : Bytes)
    → All IsByte s
    → payload MsgType.session_reply s ≡ some (m, rest)
    → Laid MsgType.session_reply s m rest
unfolding payload message_type
session_reply_inv s m rest a h =
    let (result, s1, e1, h1) = bind_parsed-some (word 1 s) _ h in
    let (w1, x1) = word-inv 1 s result s1 a e1 in
    let (client_inner, s2, e2, h2) = bind_parsed-some (addr s1) _ h1 in
    let (w2, x2) = addr-inv s1 client_inner s2 x1.bytes e2 in
    let (server_inner, s3, e3, h3) = bind_parsed-some (addr s2) _ h2 in
    let (w3, x3) = addr-inv s2 server_inner s3 x2.bytes e3 in
    let (server_outer, s4, e4, h4) = bind_parsed-some (addr s3) _ h3 in
    let (w4, x4) = addr-inv s3 server_outer s4 x3.bytes e4 in
    let (r, is, q1, q2, q3, q4, k1, k2, k3, k4, k5, x5) =
      reply_tail_inv result client_inner server_inner server_outer s4 m rest x4.bytes h4 in
    rw (is, q1, q2, q3, q4)
      (
        (omega arith, w2, w3, w4, k1, k2, k3, k4, k5),
        refl,
        Starts-append x1 (Starts-append x2 (Starts-append x3 (Starts-append x4 x5))),
      )

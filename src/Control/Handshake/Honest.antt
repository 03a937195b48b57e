-- ===== src/Control/Handshake/Honest.antt =====
-- The server's half of the handshake with a client that keeps to the protocol.
use gremlind.Prelude.{
  ℕ, suc, ◌%◌, ◌^◌, ◌≤◌, ◌≡◌, refl, ap, ◌∙◌, true, some, List, [], ◌∷◌, ◌++◌, ok, length, nat_eq,
  arith, not-lt→ltb,
}
use gremlind.Prelude.Maps.{is_some}
use gremlind.Prelude.Bytes.{Bytes, be_bytes}
use gremlind.Control.Proto.{
  Message, Auth, auth, Hello, hello, challenge, SessionRequest, session_request, session_reply,
  nonce_len, IsWellFormed, proto_version, type_byte, message_type, new_message,
  new_message-type_byte,
}
use gremlind.Control.Codec.{marshal_payload}
use gremlind.Control.Frame.{frame, read_message_limited, looks_like_control, frame_header_len}
use gremlind.Control.Frame.Exact.{read_message_limited-frame}
use gremlind.Control.Identity.{valid_client_id}
use gremlind.Control.Secure.{Aead, SecureChannel, read_secure, write_secure}
use gremlind.Control.Secure.Plain.{Carries}
use gremlind.Control.Secure.Channel.{IsAead, InStep, read-write_secure}
use gremlind.Control.Handshake.{
  Environment, granted, Run, established, server_channel, secret_or_random, params_of,
  answer_request, authenticate, challenge_client, greet, handshake, max_handshake_payload, reply_of,
}
use gremlind.Control.Dialer.{hello_of, auth_of, client_channel}
use gremlind.Session.{SessionGrant}

header :
    (a b t : ℕ) (s : Bytes)
    → is_some (new_message t) ≡ true
    → looks_like_control (a ∷ b ∷ proto_version ∷ t ∷ s) ≡ true
unfolding looks_like_control
header a b t s known =
    rw (not-lt→ltb (length (a ∷ b ∷ proto_version ∷ t ∷ s)) frame_header_len (omega arith), known)
      refl

-- No frame of the protocol is taken for a stranger's probe.
pub looks_like_control-frame :
    (m : Message) (rest : Bytes) → looks_like_control (frame m ++ rest) ≡ true
unfolding frame be_bytes
looks_like_control-frame m rest =
    header _ _ (type_byte (message_type m)) (marshal_payload m ++ rest)
      (ap is_some (new_message-type_byte (message_type m)))

-- What the client sends, and what makes it honest: it shares the secret, its nonce is whole and its
-- request goes out.
pub record Honest (env : Environment) (id nonce client_nonce : Bytes) (req : SessionRequest)
    (out : Bytes) : Type 0 where
  pub valid : valid_client_id id ≡ true
  pub nonce_drawn : env.server_nonce ≡ some nonce
  pub whole : length client_nonce ≡ nonce_len
  pub hello_fits : IsWellFormed (hello (hello_of id))
  pub hello_short : length (marshal_payload (hello (hello_of id))) ≤ max_handshake_payload
  pub auth_fits : IsWellFormed (auth (auth_of client_nonce))
  pub auth_short : length (marshal_payload (auth (auth_of client_nonce))) ≤ max_handshake_payload
  pub law : IsAead (env.derive (secret_or_random env id) id nonce client_nonce).0
  pub request_fits : Carries (session_request req)
  pub request_sent :
      (write_secure
        (client_channel (env.derive (secret_or_random env id) id nonce client_nonce))
        (session_request req)).1
      ≡ ok out
  pub challenge_sent : env.challenge_sent ≡ true
  pub reply_sent : env.reply_sent ≡ true

-- The steps of a handshake that goes on.
authenticate_steps :
    (env : Environment) (id nonce : Bytes) (sent : List Message) (m : Auth) (rest : Bytes)
    (ch : SecureChannel) (req : SessionRequest) (left : Bytes)
    → length m.mac ≡ nonce_len
    → read_secure (server_channel env (secret_or_random env id) id nonce m.mac) rest
      ≡ (ch, ok (session_request req, left))
    → authenticate env id nonce sent m rest ≡ answer_request env id sent ch req left
unfolding authenticate
authenticate_steps env id nonce sent m rest ch req left full read =
    rw ((nat_eq.decides (length m.mac) nonce_len).1 full, read)
      (ap (λ r. answer_request env id sent r.0 req left) read)

challenge_client_steps :
    (env : Environment) (id nonce rest : Bytes) (m : Auth) (left : Bytes)
    → env.challenge_sent ≡ true
    → read_message_limited rest max_handshake_payload ≡ ok (auth m, left)
    → challenge_client env id nonce rest
      ≡ authenticate env id nonce (challenge (record { nonce = nonce }) ∷ []) m left
unfolding challenge_client
challenge_client_steps env id nonce rest m left out read = rw (out, read) refl

greet_steps :
    (env : Environment) (m : Hello) (rest nonce : Bytes)
    → valid_client_id m.client_id ≡ true
    → env.server_nonce ≡ some nonce
    → greet env m rest ≡ challenge_client env m.client_id nonce rest
unfolding greet
greet_steps env m rest nonce valid drawn = rw (valid, drawn) refl

handshake_steps :
    (env : Environment) (s : Bytes) (m : Hello) (rest : Bytes)
    → looks_like_control s ≡ true
    → read_message_limited s max_handshake_payload ≡ ok (hello m, rest)
    → handshake env s ≡ greet env m rest
unfolding handshake
handshake_steps env s m rest control read = rw (control, read) refl

answer_request_steps :
    (env : Environment) (id : Bytes) (sent : List Message) (ch : SecureChannel)
    (req : SessionRequest) (rest : Bytes) (g : SessionGrant)
    → env.establish (params_of env id req) ≡ granted g
    → env.reply_sent ≡ true
    → answer_request env id sent ch req rest ≡ record {
      sent = sent;
      asked = some (params_of env id req);
      replied = some (reply_of g);
      verdict =
          established
            (params_of env id req)
            g
            (write_secure ch (session_reply (reply_of g))).0
            rest;
    }
unfolding answer_request
answer_request_steps env id sent ch req rest g e out = rw (e, out, answer_request) refl

module _ (env : Environment) (id nonce client_nonce : Bytes) (req : SessionRequest)
    (out rest : Bytes) (h : Honest env id nonce client_nonce req out) where
  abbrev keys : Aead × Aead
  keys = env.derive (secret_or_random env id) id nonce client_nonce

  abbrev server_end : SecureChannel
  server_end = record { read_key = keys.0; write_key = keys.1; read_seq = 0; write_seq = 0 }

  in_step : InStep (client_channel keys) server_end
  in_step = record { key = refl; seq = refl }

  request_read :
      read_secure server_end (out ++ rest)
      ≡ (record server_end { read_seq = suc 0 % 2 ^ 64 }, ok (session_request req, rest))
  request_read =
      (read-write_secure (client_channel keys) server_end in_step h.law (session_request req) out
        rest h.request_fits h.request_sent).0

  abbrev answered : List Message → Run
  answered sent =
      answer_request env id sent (record server_end { read_seq = suc 0 % 2 ^ 64 }) req rest

  authenticated :
      (sent : List Message)
      → authenticate env id nonce sent (auth_of client_nonce) (out ++ rest) ≡ answered sent
  unfolding server_channel
  authenticated sent =
      authenticate_steps env id nonce sent (auth_of client_nonce) (out ++ rest)
        (record server_end { read_seq = suc 0 % 2 ^ 64 }) req rest h.whole request_read

  challenged :
      challenge_client env id nonce (frame (auth (auth_of client_nonce)) ++ (out ++ rest))
      ≡ answered (challenge (record { nonce = nonce }) ∷ [])
  challenged =
      challenge_client_steps env id nonce _ (auth_of client_nonce) (out ++ rest) h.challenge_sent (
        read_message_limited-frame (auth (auth_of client_nonce)) max_handshake_payload (out ++ rest)
          h.auth_fits h.auth_short (omega (arith, h.auth_short)))
      ∙ authenticated (challenge (record { nonce = nonce }) ∷ [])

  -- A client with a valid ID that shares the secret, and whose HELLO, nonce and sealed request are
  -- well-formed and within the limits, is served when the server has drawn its nonce, the AEAD
  -- keeps its laws and the server's writes succeed: if `Establish` grants a session for the
  -- client's own ID and request, the handshake ends with that session established, and what the
  -- client sent after the request is left in the stream.
  pub handshake-Honest :
      (g : SessionGrant)
      → env.establish (params_of env id req) ≡ granted g
      → handshake env
          (frame (hello (hello_of id)) ++ (frame (auth (auth_of client_nonce)) ++ (out ++ rest)))
        ≡ record {
          sent = challenge (record { nonce = nonce }) ∷ [];
          asked = some (params_of env id req);
          replied = some (reply_of g);
          verdict =
              established
                (params_of env id req)
                g
                (write_secure (record server_end { read_seq = 1 }) (session_reply (reply_of g))).0
                rest;
        }
  handshake-Honest g e =
      handshake_steps env _ (hello_of id) _ (looks_like_control-frame (hello (hello_of id)) _) (
        read_message_limited-frame (hello (hello_of id)) max_handshake_payload _ h.hello_fits
          h.hello_short (omega (arith, h.hello_short)))
      ∙ greet_steps env (hello_of id) _ nonce h.valid h.nonce_drawn
      ∙ challenged
      ∙ answer_request_steps env id (challenge (record { nonce = nonce }) ∷ [])
          (record server_end { read_seq = 1 }) req rest g e h.reply_sent

-- ===== src/Control/Handshake/Evidence.antt =====
-- What in a stream stands behind a call of `Establish` by `handshake` of internal/control/server.go.
use gremlind.Prelude.{
  ◌≡◌, refl, ap₂, if◌then◌else◌, true, some, List, Result, ok, err, length, ◌==◌, nat_eq,
}
use gremlind.Prelude.Bytes.{Bytes}
use gremlind.Control.Proto.{Message, hello, auth, Auth, Hello, SessionRequest, session_request}
use gremlind.Control.Frame.{Error, read_message_limited, looks_like_control}
use gremlind.Control.Identity.{valid_client_id, secret_for}
use gremlind.Control.Secure.{Aead, SecureChannel, read_secure}
use gremlind.Control.Handshake.{
  Establishment, granted, refused, Environment, as_hello, as_auth, as_request, params_of,
  answer_request,
}
use gremlind.Session.{SessionParams}

-- The secret of a client, or a random one for a client without.
abbrev pub secret_of : Environment → Bytes → Bytes
secret_of env id =
    let secret = secret_for id env.psk env.clients in
    if length secret == 0 then env.random_secret else secret

-- The server's end under fresh keys: it reads what the client's key has sealed, from number 0.
abbrev pub fresh_channel : Aead × Aead → SecureChannel
fresh_channel keys = record { read_key = keys.0; write_key = keys.1; read_seq = 0; write_seq = 0 }

-- The evidence in the stream `s` behind a call of `Establish`: it starts with a HELLO of a valid ID,
-- an AUTH with the client's nonce follows, and what comes next opens, as a session request, under
-- the keys of the client's secret and both nonces.
pub record Authenticated (env : Environment) (s : Bytes) (p : SessionParams) : Type 0 where
  pub greeting : Hello
  pub after_greeting : Bytes
  pub nonce : Bytes
  pub proof : Auth
  pub after_proof : Bytes
  pub request : SessionRequest
  pub left : Bytes
  pub control : looks_like_control s ≡ true
  pub greets : read_message_limited s 4096 ≡ ok (hello greeting, after_greeting)
  pub valid : valid_client_id greeting.client_id ≡ true
  pub drawn : env.server_nonce ≡ some nonce
  pub challenged : env.challenge_sent ≡ true
  pub proves : read_message_limited after_greeting 4096 ≡ ok (auth proof, after_proof)
  pub full : length proof.mac ≡ 32
  pub opens :
      (read_secure
        (fresh_channel
          (env.derive (secret_of env greeting.client_id) greeting.client_id nonce proof.mac))
        after_proof).1
      ≡ ok (session_request request, left)
  pub params : p ≡ params_of env greeting.client_id request

pub as_hello-inv :
    (r : Result Error (Message × Bytes)) (m : Hello) (left : Bytes)
    → as_hello r ≡ some (m, left)
    → r ≡ ok (hello m, left)
as_hello-inv (ok (hello m, rest)) n left h =
    let same : m ≡ n = cc in let tail : rest ≡ left = cc in ap₂ (λ x y. ok (hello x, y)) same tail
as_hello-inv (ok (_, rest)) n left h = cc
as_hello-inv (err e) n left h = cc

pub as_auth-inv :
    (r : Result Error (Message × Bytes)) (m : Auth) (left : Bytes)
    → as_auth r ≡ some (m, left)
    → r ≡ ok (auth m, left)
as_auth-inv (ok (auth m, rest)) n left h =
    let same : m ≡ n = cc in let tail : rest ≡ left = cc in ap₂ (λ x y. ok (auth x, y)) same tail
as_auth-inv (ok (_, rest)) n left h = cc
as_auth-inv (err e) n left h = cc

pub as_request-inv :
    (r : Result Error (Message × Bytes)) (req : SessionRequest) (left : Bytes)
    → as_request r ≡ some (req, left)
    → r ≡ ok (session_request req, left)
as_request-inv (ok (session_request m, rest)) req left h =
    let same : m ≡ req = cc in
    let tail : rest ≡ left = cc in ap₂ (λ x y. ok (session_request x, y)) same tail
as_request-inv (ok (_, rest)) req left h = cc
as_request-inv (err e) req left h = cc

pub answer_request-asked :
    (env : Environment) (id : Bytes) (sent : List Message) (ch : SecureChannel)
    (req : SessionRequest) (rest : Bytes)
    → (answer_request env id sent ch req rest).asked ≡ some (params_of env id req)
unfolding answer_request
answer_request-asked env id sent ch req rest = on (env.establish (params_of env id req)) refl
  where
    on :
        (e : Establishment)
        → env.establish (params_of env id req) ≡ e
        → (answer_request env id sent ch req rest).asked ≡ some (params_of env id req)
    on (refused result message) e = rw (e, answer_request) refl
    on (granted g) e = rw (e, answer_request) refl

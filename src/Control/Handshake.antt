-- ===== src/Control/Handshake.antt =====
-- The server's half of the handshake, `handshake` of internal/control/server.go. What it takes from
-- elsewhere is its environment: the random nonce and secret, the key derivation, `Establish`, and
-- whether its writes succeed.
pub mod Evidence
pub mod Asked
pub mod Honest
pub mod Granted
use gremlind.Prelude.{
  ℕ, Bool, true, false, ◌&&◌, not, Option, none, some, List, [], ◌∷◌, Result, ok, err, length, ◌==◌,
  nat_eq, if◌then◌else◌,
}
use gremlind.Prelude.Bytes.{Bytes}
use gremlind.Prelude.Maps.{Map}
use gremlind.Net.{Addr, invalid}
use gremlind.Control.Proto.{
  Message, Hello, Challenge, Auth, SessionRequest, SessionReply, hello, challenge, auth,
  session_request, session_reply, teardown, nonce_len, result_ok, tunnel_flag_gre_key,
}
use gremlind.Control.Frame.{Error, frame, read_message_limited, looks_like_control}
use gremlind.Control.Identity.{valid_client_id, secret_for}
use gremlind.Control.Secure.{Aead, SecureChannel, write_secure, read_secure}
use gremlind.Session
use gremlind.Session.{SessionParams, SessionGrant}

abbrev pub max_handshake_payload : ℕ
max_handshake_payload = 4096

-- What `Establish` answers: a grant, or a result code and a text.
pub data Establishment : Type 0 where
  granted : SessionGrant → Establishment
  refused : ℕ → Bytes → Establishment

pub record Environment : Type 0 where
  pub psk : Bytes
  pub clients : Map Bytes Bytes
  pub random_secret : Bytes
  pub server_nonce : Option Bytes
  pub derive : Bytes → Bytes → Bytes → Bytes → Aead × Aead
  pub client_outer : Addr
  pub establish : SessionParams → Establishment
  pub challenge_sent : Bool
  pub reply_sent : Bool
  pub bad_client_id : Bytes
  pub auth_failed : Bytes

pub data Verdict : Type 0 where
  decoy : Verdict
  dropped : Verdict
  torn_down : SessionParams → SessionGrant → Verdict
  established : SessionParams → SessionGrant → SecureChannel → Bytes → Verdict

-- The messages sent in the clear, the parameters of the call of `Establish`, and how it ends.
pub record Run : Type 0 where
  pub sent : List Message
  pub asked : Option SessionParams
  pub replied : Option SessionReply
  pub verdict : Verdict

abbrev pub stop : List Message → Run
stop sent = record { sent = sent; asked = none; replied = none; verdict = dropped }

-- `expect` at each message that the server waits for.
abbrev pub as_hello : Result Error (Message × Bytes) → Option (Hello × Bytes)
as_hello (ok (hello m, rest)) = some (m, rest)
as_hello _ = none

abbrev pub as_auth : Result Error (Message × Bytes) → Option (Auth × Bytes)
as_auth (ok (auth m, rest)) = some (m, rest)
as_auth _ = none

abbrev pub as_request : Result Error (Message × Bytes) → Option (SessionRequest × Bytes)
as_request (ok (session_request m, rest)) = some (m, rest)
as_request _ = none

-- `newServerSecureChannel`
unfoldable pub server_channel : Environment → Bytes → Bytes → Bytes → Bytes → SecureChannel
server_channel env secret id server_nonce client_nonce =
    let (c2s, s2c) = env.derive secret id server_nonce client_nonce in
    record { read_key = c2s; write_key = s2c; read_seq = 0; write_seq = 0 }

-- The secret of a client; an unknown one gets a random secret.
unfoldable pub secret_or_random : Environment → Bytes → Bytes
unfolding secret_for
secret_or_random env id =
    let secret = secret_for id env.psk env.clients in
    if length secret == 0 then env.random_secret else secret

unfoldable pub reply_of : SessionGrant → SessionReply
reply_of g = record {
  result = result_ok;
  client_inner = g.client_inner;
  server_inner = g.server_inner;
  server_outer = g.server_outer;
  gre_key = g.gre_key;
  tunnel_flags =
      if g.tunnel_flags == 0 && not (g.gre_key == 0) then tunnel_flag_gre_key else g.tunnel_flags;
  mtu = g.mtu;
  message = [];
  server_mac = [];
}

abbrev pub refusal_of : ℕ → Bytes → SessionReply
refusal_of result message = record {
  result = result;
  client_inner = invalid;
  server_inner = invalid;
  server_outer = invalid;
  gre_key = 0;
  tunnel_flags = 0;
  mtu = 0;
  message = message;
  server_mac = [];
}

abbrev pub params_of : Environment → Bytes → SessionRequest → SessionParams
params_of env id req = record {
  client_id = id;
  client_outer = env.client_outer;
  outer_mtu = req.outer_mtu;
  requested_inner = req.requested_inner;
}

-- From the call of `Establish` on.
unfoldable pub answer_request :
    Environment → Bytes → List Message → SecureChannel → SessionRequest → Bytes → Run
unfolding reply_of
answer_request env id sent ch req rest =
    let params = params_of env id req in
    elim (env.establish params) [
      | refused result message ↦ record {
        sent = sent;
        asked = some params;
        replied = some (refusal_of result message);
        verdict = dropped;
      }
      | granted g ↦ record {
        sent = sent;
        asked = some params;
        replied = some (reply_of g);
        verdict =
            if env.reply_sent
            then established params g (write_secure ch (session_reply (reply_of g))).0 rest
            else torn_down params g;
      }
    ]

-- From the AUTH message on.
unfoldable pub authenticate : Environment → Bytes → Bytes → List Message → Auth → Bytes → Run
unfolding server_channel secret_or_random answer_request
authenticate env id nonce sent m rest =
    let (ch, request) =
      read_secure (server_channel env (secret_or_random env id) id nonce m.mac) rest in
    let served : Run = elim (as_request request) [
      | none ↦ stop sent
      | some (req, left) ↦ answer_request env id sent ch req left
    ] in
    if length m.mac == nonce_len
    then served
    else stop (teardown (record { reason = env.auth_failed }) ∷ sent)

-- From the nonce on.
unfoldable pub challenge_client : Environment → Bytes → Bytes → Bytes → Run
unfolding authenticate
challenge_client env id nonce rest =
    let sent : List Message = challenge (record { nonce = nonce }) ∷ [] in
    let answered : Run = elim (as_auth (read_message_limited rest max_handshake_payload)) [
      | none ↦ stop sent
      | some (m, left) ↦ authenticate env id nonce sent m left
    ] in
    if env.challenge_sent then answered else stop []

-- From the HELLO message on.
unfoldable pub greet : Environment → Hello → Bytes → Run
unfolding challenge_client
greet env m rest =
    let challenged : Run = elim env.server_nonce [
      | none ↦ stop []
      | some nonce ↦ challenge_client env m.client_id nonce rest
    ] in
    if valid_client_id m.client_id
    then challenged
    else stop (teardown (record { reason = env.bad_client_id }) ∷ [])

-- `handshake`
unfoldable pub handshake : Environment → Bytes → Run
unfolding greet
handshake env s =
    let greeted : Run = elim (as_hello (read_message_limited s max_handshake_payload)) [
      | none ↦ stop []
      | some (m, rest) ↦ greet env m rest
    ] in
    if looks_like_control s
    then greeted
    else record { sent = []; asked = none; replied = none; verdict = decoy }

-- ===== src/Tests/HandshakeTests.antt =====
-- The two halves of the handshake on a client with the toy AEAD.
use gremlind.Prelude.{◌≡◌, ◌↔◌, refl, true, some, [], ◌∷◌, ◌++◌, ok, arith}
use gremlind.Prelude.Bytes.{Bytes, be_bytes}
use gremlind.Prelude.Int.{pos}
use gremlind.Net.{invalid, v4}
use gremlind.Control.Proto.{
  hello, challenge, auth, session_request, session_reply, SessionRequest, SessionReply,
  message_type, type_byte, result_ok,
}
use gremlind.Control.Codec
use gremlind.Control.Codec.{marshal_payload}
use gremlind.Control.Frame.{frame, write_message}
use gremlind.Control.Identity.{valid_client_id}
use gremlind.Control.Secure.{write_secure, is_encrypted}
use gremlind.Control.Dialer.{hello_of, auth_of, client_channel, accept_reply}
use gremlind.Control.Handshake.{Environment, granted, established, params_of, handshake, reply_of}
use gremlind.Control.Handshake.Evidence.{Authenticated}
use gremlind.Control.Handshake.Asked.{handshake-asked}
use gremlind.Control.Handshake.Honest.{Honest, handshake-Honest}
use gremlind.Control.Handshake.Granted.{grant-accepted, dialer_session}
use gremlind.Gre.Names.{is_alphanumeric}
use gremlind.Session.{SessionGrant, grant_of}
use gremlind.Tests.SecureTests.{toy, toy-IsAead}
use gremlind.Tests.SessionTests.{alice, asks, online, online-Inv, roamed, begun, alice_roams}

abbrev grant : SessionGrant
grant = record {
  client_inner = v4 167772162;
  server_inner = v4 167772161;
  server_outer = v4 16909060;
  gre_key = 7;
  tunnel_flags = 1;
  mtu = 1476;
  session_key = 7;
}

abbrev nonce : Bytes
nonce =
    0 ∷ 0 ∷ 0 ∷ 0 ∷ 0 ∷ 0 ∷ 0 ∷ 0 ∷ 0 ∷ 0 ∷ 0 ∷ 0 ∷ 0 ∷ 0 ∷ 0 ∷ 0 ∷ 0 ∷ 0 ∷ 0 ∷ 0 ∷ 0 ∷ 0 ∷ 0 ∷ 0
    ∷ 0 ∷ 0 ∷ 0 ∷ 0 ∷ 0 ∷ 0 ∷ 0 ∷ 0 ∷ []

abbrev server : Environment
server = record {
  psk = b'p' ∷ [];
  clients = [];
  random_secret = b'r' ∷ [];
  server_nonce = some nonce;
  derive = λ secret id server_nonce client_nonce. (toy, toy);
  client_outer = v4 84281096;
  establish = λ p. granted grant;
  challenge_sent = true;
  reply_sent = true;
  bad_client_id = [];
  auth_failed = [];
}

abbrev request : SessionRequest
request = record { outer_mtu = 1500; requested_inner = invalid }

abbrev sealed : Bytes
sealed = 0 ∷ 10 ∷ 2 ∷ 9 ∷ 0 ∷ 8 ∷ 7 ∷ 0 ∷ 3 ∷ 2 ∷ 4 ∷ 5 ∷ 220 ∷ 0 ∷ []

sealed_sent : (write_secure (client_channel (toy, toy)) (session_request request)).1 ≡ ok sealed
unfolding write_secure write_message marshal_payload Codec.enc_bytes be_bytes frame type_byte
    message_type Codec.enc_u16 Codec.enc_addr
sealed_sent = refl

alice-Honest : Honest server alice nonce nonce request sealed
unfolding marshal_payload Codec.enc_str Codec.enc_u32 Codec.enc_bytes Codec.enc_u16 Codec.enc_addr
    be_bytes
alice-Honest = record {
  valid = unfold valid_client_id in unfold is_alphanumeric in refl;
  nonce_drawn = refl;
  whole = refl;
  hello_fits = omega arith;
  hello_short = omega arith;
  auth_fits = omega arith;
  auth_short = omega arith;
  law = toy-IsAead;
  request_fits = record {
    well_formed = omega arith;
    short = omega arith;
    inner = unfold is_encrypted in unfold message_type in refl;
  };
  request_sent = sealed_sent;
  challenge_sent = refl;
  reply_sent = refl;
}

abbrev stream : Bytes
stream = frame (hello (hello_of alice)) ++ (frame (auth (auth_of nonce)) ++ (sealed ++ 1 ∷ []))

handshake-Honest_example : handshake server stream ≡ record {
  sent = challenge (record { nonce = nonce }) ∷ [];
  asked = some (params_of server alice request);
  replied = some (reply_of grant);
  verdict =
      established
        (params_of server alice request)
        grant
        (write_secure
          (record { read_key = toy; write_key = toy; read_seq = 1; write_seq = 0 })
          (session_reply (reply_of grant))).0
        (1 ∷ []);
}
handshake-Honest_example =
    handshake-Honest server alice nonce nonce request sealed (1 ∷ []) alice-Honest grant refl

handshake-asked_example :
    ((handshake server stream).asked ≡ some (params_of server alice request))
    ↔ Authenticated server stream (params_of server alice request)
handshake-asked_example = handshake-asked server (params_of server alice request) stream

abbrev good_reply : SessionReply
good_reply = record {
  result = result_ok;
  client_inner = v4 167772162;
  server_inner = v4 167772161;
  server_outer = v4 16909060;
  gre_key = 7;
  tunnel_flags = 1;
  mtu = 1476;
  message = [];
  server_mac = [];
}

grant-accepted_example :
    accept_reply (reply_of (grant_of roamed begun)) ≡ ok (dialer_session roamed begun)
grant-accepted_example =
    grant-accepted online roamed (asks alice) (pos 1476) 20 (0 ∷ 8 ∷ []) begun online-Inv
      alice_roams

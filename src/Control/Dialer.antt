-- ===== src/Control/Dialer.antt =====
-- The client's half of the handshake, `Client.Handshake` of internal/control/client.go: what it sends
-- and what it makes of the server's messages. A read or a write that fails is `transient`.
use gremlind.Prelude.{ℕ, ◌/◌, ◌%◌, not, Result, ok, err, ◌==◌, nat_eq, if◌then◌else◌}
use gremlind.Prelude.Bytes.{Bytes}
use gremlind.Net.{Addr}
use gremlind.Control.Proto.{
  Message, Hello, Auth, SessionReply, challenge, session_reply, teardown, result_ok,
  result_no_addresses,
}
use gremlind.Control.Frame.{Error}
use gremlind.Control.Secure.{Aead, SecureChannel}

-- `Session`
pub record DialerSession : Type 0 where
  pub client_inner : Addr
  pub server_inner : Addr
  pub server_outer : Addr
  pub gre_key : ℕ
  pub tunnel_flags : ℕ
  pub mtu : ℕ

-- `rejected` is `ErrRejected`, on which a dialer does not try again.
pub data DialError : Type 0 where
  rejected transient : DialError

abbrev pub hello_of : Bytes → Hello
hello_of id = record { client_id = id; capabilities = 0 }

abbrev pub auth_of : Bytes → Auth
auth_of nonce = record { mac = nonce }

-- `newClientSecureChannel`
abbrev pub client_channel : Aead × Aead → SecureChannel
client_channel (c2s, s2c) = record { read_key = s2c; write_key = c2s; read_seq = 0; write_seq = 0 }

-- What the client makes of the answer to its HELLO: the server's nonce.
unfoldable pub on_challenge : Result Error (Message × Bytes) → Result DialError (Bytes × Bytes)
on_challenge (ok (challenge m, rest)) = ok (m.nonce, rest)
on_challenge (ok (teardown m, rest)) = err rejected
on_challenge (ok (_, rest)) = err transient
on_challenge (err e) = err transient

unfoldable pub session_of : SessionReply → DialerSession
session_of m = record {
  client_inner = m.client_inner;
  server_inner = m.server_inner;
  server_outer = m.server_outer;
  gre_key = if m.tunnel_flags % 2 == 1 then m.gre_key else 0;
  tunnel_flags = m.tunnel_flags;
  mtu = m.mtu;
}

-- The checks of a session reply. The two known flags are the two low bits.
unfoldable pub accept_reply : SessionReply → Result DialError DialerSession
unfolding session_of
accept_reply m =
    if not (m.result == result_ok)
    then (if m.result == result_no_addresses then err transient else err rejected)
    else if not (m.tunnel_flags / 4 == 0)
    then err rejected
    else if m.tunnel_flags % 2 == 1
    then (if m.gre_key == 0 then err rejected else ok (session_of m))
    else ok (session_of m)

-- What the client makes of the first encrypted message.
unfoldable pub on_reply : Result Error (Message × Bytes) → Result DialError DialerSession
unfolding accept_reply
on_reply (ok (session_reply m, rest)) = accept_reply m
on_reply (ok (teardown m, rest)) = err rejected
on_reply (ok (_, rest)) = err transient
on_reply (err e) = err rejected

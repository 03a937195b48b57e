-- ===== src/Control/Handshake/Asked.antt =====
-- Whom the handshake lets as far as `Establish`.
use gremlind.Prelude.{
  ◌≡◌, sym, ap, ◌∙◌, ◌↔◌, inl, inr, true, none, some, List, [], ◌∷◌, ok, length, ◌==◌, nat_eq,
  Bool-cases, Option-cases, arith,
}
use gremlind.Prelude.Bytes.{Bytes}
use gremlind.Control.Proto.{
  Message, hello, challenge, auth, Auth, Hello, SessionRequest, session_request, nonce_len,
}
use gremlind.Control.Frame.{read_message_limited, looks_like_control}
use gremlind.Control.Identity.{valid_client_id}
use gremlind.Control.Secure.{read_secure}
use gremlind.Control.Handshake.{
  Environment, as_hello, as_auth, as_request, server_channel, secret_or_random, params_of,
  answer_request, authenticate, challenge_client, greet, handshake, max_handshake_payload,
}
use gremlind.Session.{SessionParams}
use gremlind.Control.Handshake.Evidence.{
  secret_of, fresh_channel, Authenticated, as_hello-inv, as_auth-inv, as_request-inv,
  answer_request-asked,
}

module _ (env : Environment) (p : SessionParams) where
  -- A call of `Establish` from the AUTH message on, and from each message before it.
  abbrev Opened : Bytes → Bytes → Auth → Bytes → Type 0
  Opened id nonce m rest =
      (request : SessionRequest) × (left : Bytes) × (length m.mac ≡ 32)
      × ((read_secure (fresh_channel (env.derive (secret_of env id) id nonce m.mac)) rest).1
          ≡ ok (session_request request, left))
      × (p ≡ params_of env id request)

  authenticate-asked :
      (id nonce : Bytes) (sent : List Message) (m : Auth) (rest : Bytes)
      → (authenticate env id nonce sent m rest).asked ≡ some p
      → Opened id nonce m rest
  unfolding authenticate server_channel secret_or_random
  authenticate-asked id nonce sent m rest h =
      let ch = server_channel env (secret_or_random env id) id nonce m.mac in
      elim (Bool-cases (length m.mac == nonce_len)) [
        | inr short ↦
            let no : none ≡ some p = rw (short, authenticate) at h in absurd (ground (arith, no))
        | inl full ↦ elim (Option-cases (as_request (read_secure ch rest).1)) [
          | inl none_read ↦
              let no : none ≡ some p = rw (full, none_read, authenticate) at h in
              absurd (ground (arith, no))
          | inr ((req, left), e) ↦
              let asked : (answer_request env id sent (read_secure ch rest).0 req left).asked
                  ≡ some p =
                rw (full, e, authenticate) at h in
              let same : some (params_of env id req) ≡ some p =
                sym (answer_request-asked env id sent (read_secure ch rest).0 req left) ∙ asked in
              let own : params_of env id req ≡ p = ground (arith, same) in
              (
                req,
                left,
                (nat_eq.decides (length m.mac) nonce_len).0 full,
                as_request-inv (read_secure ch rest).1 req left e,
                sym own,
              )
        ]
      ]

  asked-authenticate :
      (id nonce : Bytes) (sent : List Message) (m : Auth) (rest : Bytes)
      → Opened id nonce m rest
      → (authenticate env id nonce sent m rest).asked ≡ some p
  unfolding authenticate server_channel secret_or_random
  asked-authenticate id nonce sent m rest (req, left, full, opens, own) =
      let whole : length m.mac == nonce_len ≡ true =
        (nat_eq.decides (length m.mac) nonce_len).1 full in
      rw (whole, opens, authenticate)
        (answer_request-asked env id sent _ req left ∙ ap some (sym own))

  challenge_client-asked :
      (id nonce rest : Bytes)
      → (challenge_client env id nonce rest).asked ≡ some p
      → (env.challenge_sent ≡ true)
        × (m : Auth) × (left : Bytes) × (read_message_limited rest 4096 ≡ ok (auth m, left))
        × Opened id nonce m left
  unfolding challenge_client
  challenge_client-asked id nonce rest h =
      let sent : List Message = challenge (record { nonce = nonce }) ∷ [] in
      elim (Bool-cases env.challenge_sent) [
        | inr lost ↦
            let no : none ≡ some p = rw (lost, challenge_client) at h in absurd (ground (arith, no))
        | inl out ↦
            elim (Option-cases (as_auth (read_message_limited rest max_handshake_payload))) [
              | inl none_read ↦
                  let no : none ≡ some p = rw (out, none_read, challenge_client) at h in
                  absurd (ground (arith, no))
              | inr ((m, left), e) ↦ (
                out,
                m,
                left,
                as_auth-inv (read_message_limited rest max_handshake_payload) m left e,
                authenticate-asked id nonce sent m left (rw (out, e, challenge_client) at h),
              )
            ]
      ]

  asked-challenge_client :
      (id nonce rest : Bytes) (m : Auth) (left : Bytes)
      → env.challenge_sent ≡ true
      → read_message_limited rest 4096 ≡ ok (auth m, left)
      → Opened id nonce m left
      → (challenge_client env id nonce rest).asked ≡ some p
  unfolding challenge_client
  asked-challenge_client id nonce rest m left out proves opened =
      rw (out, proves, challenge_client) (asked-authenticate id nonce _ m left opened)

  greet-asked :
      (s : Bytes) (m : Hello) (rest : Bytes)
      → looks_like_control s ≡ true
      → read_message_limited s 4096 ≡ ok (hello m, rest)
      → (greet env m rest).asked ≡ some p
      → Authenticated env s p
  unfolding greet
  greet-asked s m rest control greets h = elim (Bool-cases (valid_client_id m.client_id)) [
    | inr bad ↦ let no : none ≡ some p = rw (bad, greet) at h in absurd (ground (arith, no))
    | inl valid ↦ elim (Option-cases env.server_nonce) [
      | inl no_nonce ↦
          let no : none ≡ some p = rw (valid, no_nonce, greet) at h in absurd (ground (arith, no))
      | inr (nonce, e) ↦
          let (out, proof, after, proves, opened) =
            challenge_client-asked m.client_id nonce rest (rw (valid, e, greet) at h) in
          let (request, left, full, opens, own) = opened in
          record {
            greeting = m;
            after_greeting = rest;
            nonce = nonce;
            proof = proof;
            after_proof = after;
            request = request;
            left = left;
            control = control;
            greets = greets;
            valid = valid;
            drawn = e;
            challenged = out;
            proves = proves;
            full = full;
            opens = opens;
            params = own;
          }
    ]
  ]

  -- The server calls `Establish` exactly for a stream in which a client proves its secret, and with
  -- what that client asked for. The stream looks like the protocol and starts with a HELLO of a valid
  -- ID; the server has drawn its nonce and sent its challenge; an AUTH with a nonce of 32 bytes
  -- follows; and the bytes behind it open, as a session request, under the keys that are derived
  -- from the secret of that ID, the ID and both nonces. The two messages are within 4096 bytes.
  pub handshake-asked : (s : Bytes) → ((handshake env s).asked ≡ some p) ↔ Authenticated env s p
  unfolding handshake greet
  handshake-asked s = (proven, served)
    where
      proven : (handshake env s).asked ≡ some p → Authenticated env s p
      proven h = elim (Bool-cases (looks_like_control s)) [
        | inr stranger ↦
            let no : none ≡ some p = rw (stranger, handshake) at h in absurd (ground (arith, no))
        | inl control ↦
            elim (Option-cases (as_hello (read_message_limited s max_handshake_payload))) [
              | inl none_read ↦
                  let no : none ≡ some p = rw (control, none_read, handshake) at h in
                  absurd (ground (arith, no))
              | inr ((m, rest), e) ↦
                  greet-asked s m rest control
                    (as_hello-inv (read_message_limited s max_handshake_payload) m rest e)
                    (rw (control, e, handshake) at h)
            ]
      ]

      served : Authenticated env s p → (handshake env s).asked ≡ some p
      served a =
          rw (a.control, a.greets, handshake)
            (rw (a.valid, a.drawn, greet)
              (asked-challenge_client a.greeting.client_id a.nonce a.after_greeting a.proof
                a.after_proof a.challenged a.proves (a.request, a.left, a.full, a.opens, a.params)))

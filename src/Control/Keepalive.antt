-- ===== src/Control/Keepalive.antt =====
-- `keepaliveLoop` of internal/control/server.go, over the messages that its reads return.
use gremlind.Prelude.{◌≡◌, refl, List, [], ◌∷◌}
use gremlind.Control.Proto.{Message, echo, echo_ack, teardown, hello}

-- The messages that the server sends until the reads end or the peer takes its leave. A message of
-- another type is passed over.
unfoldable pub keepalive_loop : List Message → List Message
keepalive_loop [] = []
keepalive_loop (echo m ∷ messages) = echo_ack (record { seq = m.seq }) ∷ keepalive_loop messages
keepalive_loop (teardown m ∷ messages) = []
keepalive_loop (_ ∷ messages) = keepalive_loop messages

-- Echoes are answered in their order, up to the peer's leave.
pub echoes_answered :
    keepalive_loop (
      echo (record { seq = 1 })
      ∷ hello (record { client_id = []; capabilities = 0 })
      ∷ echo (record { seq = 2 })
      ∷ teardown (record { reason = [] })
      ∷ echo (record { seq = 3 })
      ∷ [])
    ≡ echo_ack (record { seq = 1 }) ∷ echo_ack (record { seq = 2 }) ∷ []
unfolding keepalive_loop
echoes_answered = refl

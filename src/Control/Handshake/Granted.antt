-- ===== src/Control/Handshake/Granted.antt =====
-- What the dialer makes of the session that the manager has granted.
use gremlind.Prelude.{
  ℕ, ◌%◌, ◌<◌, ◌≡◌, ◌≢◌, sym, ap, subst, ◌∙◌, ◌↔◌, ◌⊎◌, List, ok, nat_eq, if◌then◌else◌, arith,
}
use gremlind.Prelude.Int.{ℤ}
use gremlind.Control.Proto.{SessionReply, result_ok}
use gremlind.Control.Dialer.{DialerSession, session_of, accept_reply}
use gremlind.Control.Handshake.{reply_of}
use gremlind.Session.{
  SessionParams, Manager, Begun, establish_locked, grant_of, tunnel_flags_of, word_16,
}
use gremlind.Session.Consistency.{Inv}
use gremlind.Session.Establishing.{
  Serves, Establishes, established, refused, establish_locked-Establishes,
}

-- The dialer accepts a reply exactly if it reports success, sets no unknown flag and has a key where
-- it announces one.
pub accept_reply_iff :
    (m : SessionReply)
    → (accept_reply m ≡ ok (session_of m)) ↔ (
        (m.result ≡ result_ok)
        × (m.tunnel_flags < 4)
        × ((m.tunnel_flags % 2 ≡ 0) ⊎ (m.gre_key ≢ 0)))
unfolding accept_reply
accept_reply_iff m = ground (arith, nat_eq.decides m.result 0, nat_eq.decides m.gre_key 0)

-- The dialer's view of a session that the manager has entered.
abbrev pub dialer_session : Manager → Begun → DialerSession
dialer_session n b = record {
  client_inner = b.entry.client_inner;
  server_inner = n.server_inner;
  server_outer = n.gre_local;
  gre_key = b.entry.gre_key;
  tunnel_flags = tunnel_flags_of n;
  mtu = word_16 b.entry.mtu;
}

-- A grant as the manager makes it, by its settings and its key.
accepted :
    (n : Manager) (b : Begun)
    → b.key ≢ 0
    → b.entry.gre_key ≡ (if n.use_gre_key then b.key else 0)
    → accept_reply (reply_of (grant_of n b)) ≡ ok (dialer_session n b)
unfolding accept_reply reply_of grant_of
accepted n b nonzero keyed = ground (arith, nonzero, keyed)

-- Whatever session the manager enters from a consistent registry, the dialer accepts the reply
-- that the server makes of it, and takes from it the session's inner address, GRE key, flags and
-- MTU.
pub grant-accepted :
    (m n : Manager) (p : SessionParams) (mtu : ℤ) (now : ℕ) (rands : List ℕ) (b : Begun)
    → Inv m
    → establish_locked m p mtu now rands ≡ (n, ok b)
    → accept_reply (reply_of (grant_of n b)) ≡ ok (dialer_session n b)
grant-accepted m n p mtu now rands b i e =
    by_cases
      (subst (Establishes m p.client_id) e (establish_locked-Establishes m p mtu now rands i))
  where
    by_cases :
        Establishes m p.client_id (n, ok b)
        → accept_reply (reply_of (grant_of n b)) ≡ ok (dialer_session n b)
    by_cases (established c eq s) =
        let same : c ≡ b = cc in
        let t = subst (Serves m n p.client_id) same s in
        accepted n b t.nonzero
          (t.keyed ∙ ap (λ c. if c.use_gre_key then b.key else 0) (sym t.config))
    by_cases (refused x eq s) = cc

-- ===== src/Tests/SessionTests.antt =====
-- internal/session/manager.go over the pool of the other tests, with two clients.
use gremlind.Prelude.{
  ℕ, ◌+◌, ◌≡◌, refl, ◌↔◌, inl, true, false, none, some, List, ◌∷◌, [], ok, arith, nat_eq, list_eq,
}
use gremlind.Prelude.Bytes.{Bytes}
use gremlind.Prelude.Int.{pos, ◌-ℤ◌}
use gremlind.Prelude.Maps.{has, lookup, lookup-nil, insert, delete, Distinct}
use gremlind.Net.{Addr, addr_eq, invalid, v4, v6, contains, next}
use gremlind.Pool
use gremlind.Pool.{Pool, allocate, allocate_specific, release}
use gremlind.Gre.Names.{if_name}
use gremlind.Session
use gremlind.Session.{
  SessionParams, Entry, Config, Manager, evict, random_key, Begun, Refusal, establish_locked,
  rollback, teardown, purge_expired_leases, alloc_inner, alloc_loop, lease_available_to,
  negotiate_mtu, common_outer, minimum_tunnel_mtu, tunnel_overhead,
}
use gremlind.Session.Consistency.{Inv}
use gremlind.Session.Runs.{
  Section, begins, tears_down, run_sections, enter, new_manager, run-new_manager-Inv,
  run-one_session, run-used,
}
use gremlind.Session.Establishing.{Establishes, establish_locked-Establishes}
use gremlind.Session.Sticky.{Returns, establish_locked-sticky}
use gremlind.Session.Ending.{teardown-superseded}
use gremlind.Session.Assignment.{Assigns, alloc_inner-Assigns}
use gremlind.Gre.Overhead.{overhead_with_fou}
use gremlind.Tests.PoolTests.{net, server_ip, fresh_pool, fresh_pool-IsSound, fresh_pool_unused}

abbrev pub alice : Bytes
alice = b'a' ∷ []

abbrev bob : Bytes
bob = b'b' ∷ []

-- bob has a static lease; leases last 100.
abbrev config : Config
config = record {
  server_inner = server_ip;
  gre_local = v4 16909060;
  outer_mtu = pos 1500;
  mtu_cap = pos 0;
  use_gre_key = true;
  use_gre_seq = false;
  lease_ttl = pos 100;
  if_names = [];
  static_lease = (bob, v4 (net + 4)) ∷ [];
  fou_port = 0;
}

abbrev pub asks : Bytes → SessionParams
asks client = record {
  client_id = client;
  client_outer = v4 84281096;
  outer_mtu = 1500;
  requested_inner = invalid;
}

abbrev empty : Manager
empty = new_manager config fresh_pool

static-Distinct : Distinct config.static_lease
static-Distinct = (lookup-nil {V = Addr} bob, tt)

-- alice connects, roams while her old session is still there, and the old one is torn down.
abbrev connects : List Section
connects = begins (asks alice) (pos 1476) 10 (7 ∷ []) ∷ []

abbrev roams : List Section
roams =
    begins (asks alice) (pos 1476) 10 (7 ∷ [])
    ∷ begins (asks alice) (pos 1476) 20 (0 ∷ 8 ∷ [])
    ∷ tears_down 7 30
    ∷ begins (asks bob) (pos 1476) 40 (8 ∷ 9 ∷ [])
    ∷ []

abbrev pub online : Manager
online = run_sections empty connects

pub online-Inv : Inv online
online-Inv =
    run-new_manager-Inv config fresh_pool fresh_pool-IsSound fresh_pool_unused static-Distinct
      connects

online_active : lookup alice online.active ≡ some 7
unfolding run_sections lookup enter establish_locked alloc_inner purge_expired_leases new_manager
    allocate Pool.scan contains next Pool.taken has lease_available_to insert allocate_specific
    release delete Session.if_name_for if_name
online_active = refl

abbrev alice_entry : Entry
alice_entry = record {
  ident = 0;
  client_id = alice;
  if_name = b'g' ∷ b'r' ∷ b'e' ∷ b'm' ∷ b'7' ∷ [];
  client_inner = v4 (net + 2);
  client_outer = v4 84281096;
  gre_key = 7;
  mtu = pos 1476;
  since = 10;
}

online_session : lookup 7 online.sessions ≡ some alice_entry
unfolding run_sections lookup enter establish_locked alloc_inner purge_expired_leases new_manager
    allocate Pool.scan contains next Pool.taken has lease_available_to insert allocate_specific
    release delete Session.if_name_for if_name
online_session = refl

run-used_example : (has (v4 (net + 2)) (run_sections empty roams).pool.used ≡ true) ↔ (
    (k : ℕ) × (e : Entry) × (lookup k (run_sections empty roams).sessions ≡ some e)
    × (e.client_inner ≡ v4 (net + 2)))
run-used_example =
    run-used config fresh_pool fresh_pool-IsSound fresh_pool_unused static-Distinct roams
      (v4 (net + 2))

run-new_manager-Inv_example : Inv (run_sections empty roams)
run-new_manager-Inv_example =
    run-new_manager-Inv config fresh_pool fresh_pool-IsSound fresh_pool_unused static-Distinct roams

abbrev alice_key : ℕ
alice_key = 7

run-one_session_example : alice_key ≡ 7
run-one_session_example =
    run-one_session config fresh_pool fresh_pool-IsSound fresh_pool_unused static-Distinct connects
      7 7 alice_entry alice_entry online_session online_session (inl refl)

establish_locked-Establishes_example :
    Establishes online bob (establish_locked online (asks bob) (pos 1476) 40 (0 ∷ 7 ∷ 9 ∷ []))
establish_locked-Establishes_example =
    establish_locked-Establishes online (asks bob) (pos 1476) 40 (0 ∷ 7 ∷ 9 ∷ []) online-Inv

-- bob gets his static address under the first key that is neither 0 nor alice's.
bob_gets :
    (establish_locked online (asks bob) (pos 1476) 40 (0 ∷ 7 ∷ 9 ∷ [])).1
    ≡ ok (record {
      key = 9;
      entry = record {
        ident = 1;
        client_id = bob;
        if_name = b'g' ∷ b'r' ∷ b'e' ∷ b'm' ∷ b'9' ∷ [];
        client_inner = v4 (net + 4);
        client_outer = v4 84281096;
        gre_key = 9;
        mtu = pos 1476;
        since = 40;
      };
      evicted = none;
    })
unfolding run_sections lookup enter establish_locked alloc_inner purge_expired_leases new_manager
    allocate Pool.scan contains next Pool.taken has lease_available_to insert allocate_specific
    release delete Session.if_name_for if_name
bob_gets = refl

alice_lease : lookup alice (purge_expired_leases online 20).leases ≡ some (v4 (net + 2))
unfolding run_sections lookup enter establish_locked alloc_inner purge_expired_leases new_manager
    allocate Pool.scan contains next Pool.taken has lease_available_to insert allocate_specific
    release delete Session.if_name_for if_name
alice_lease = refl

establish_locked-sticky_example :
    Returns (v4 (net + 2)) (establish_locked online (asks alice) (pos 1476) 20 (8 ∷ [])).1
establish_locked-sticky_example =
    establish_locked-sticky online (asks alice) (pos 1476) 20 (8 ∷ []) (v4 (net + 2)) online-Inv
      alice_lease (inl refl)

abbrev pub begun : Begun
begun = record {
  key = 8;
  entry = record alice_entry {
    ident = 1;
    if_name = b'g' ∷ b'r' ∷ b'e' ∷ b'm' ∷ b'8' ∷ [];
    gre_key = 8;
    since = 20;
  };
  evicted = some alice_entry;
}

abbrev pub roamed : Manager
roamed = (establish_locked online (asks alice) (pos 1476) 20 (0 ∷ 8 ∷ [])).0

pub alice_roams :
    establish_locked online (asks alice) (pos 1476) 20 (0 ∷ 8 ∷ []) ≡ (roamed, ok begun)
unfolding run_sections lookup enter establish_locked alloc_inner purge_expired_leases new_manager
    allocate Pool.scan contains next Pool.taken has lease_available_to insert allocate_specific
    release delete Session.if_name_for if_name
alice_roams = refl

teardown-superseded_example : teardown roamed 7 30 ≡ (roamed, none)
teardown-superseded_example =
    teardown-superseded online roamed (asks alice) (pos 1476) 20 (0 ∷ 8 ∷ []) begun 7 30 online-Inv
      online_active alice_roams (λ e. omega (arith, e))

alloc_inner-Assigns_example : Assigns online bob (alloc_inner online bob invalid)
alloc_inner-Assigns_example = alloc_inner-Assigns online bob online-Inv.sound invalid

-- With FOU and a key over IPv6: 40, 8 and 8 bytes of headers.
fou_mtu :
    negotiate_mtu
      (record config {
        gre_local = v6 1;
        use_gre_key = true;
        use_gre_seq = false;
        fou_port = 5555;
        mtu_cap = pos 0;
      })
      (pos 1500)
      (pos 0)
    ≡ pos 1444
unfolding negotiate_mtu common_outer tunnel_overhead overhead_with_fou minimum_tunnel_mtu ◌-ℤ◌
fou_mtu = refl

-- ===== src/Provision/Broker.antt =====
-- `Server` and `handle` of internal/provisionrpc/rpc.go over the answers of the backend, and the
-- handlers as goroutines that interleave at the mutex and at the backend's calls.
use gremlind.Prelude.{
  ℕ, zero, suc, Bool, true, false, ◌&&◌, ◌||◌, not, List, [], ◌∷◌, Option, none, some, Result, ok,
  err, ◌==◌, nat_eq, list_eq, if◌then◌else◌,
}
use gremlind.Prelude.Bytes.{Bytes}
use gremlind.Prelude.Int.{ℤ, pos}
use gremlind.Prelude.Maps.{Map, has, insert, delete}
use gremlind.Net.{Addr, addr_eq, is_valid}
use gremlind.Gre.Params.{Params}
use gremlind.Gre.Link.{different_family}
use gremlind.Provision.Checks.{
  Settings, validate_name, validate_params, Error, bad_request, unknown_operation, invalid_name,
  not_created, bad_local, bad_remote, backend, outer_not_allowed, unusable,
}

pub data Op : Type 0 where
  ensure remove outer_mtu other : Op

pub record Request : Type 0 where
  pub op : Op
  pub params : Params
  pub name : Bytes
  pub local : Addr
  pub remote : Addr

pub record Response : Type 0 where
  pub mtu : ℤ
  pub error : Option Error

-- What the backend says to one request: an error's text or none, and the MTU or an error's text.
pub record Answers : Type 0 where
  pub ensured : Option Bytes
  pub removed : Option Bytes
  pub link_mtu : Result Bytes ℤ
  pub path_mtu : Result Bytes ℤ

-- A call of `Provisioner` and whether it succeeded.
pub data Call : Type 0 where
  ensures : Params → Bool → Call
  removes : Bytes → Bool → Call

-- The set of created interfaces, and the calls of the backend so far, the last one first.
pub record Broker : Type 0 where
  pub created : Map Bytes Bool
  pub calls : List Call

abbrev pub succeeded : Option Bytes → Bool
succeeded none = true
succeeded (some text) = false

abbrev pub failure : Option Bytes → Option Error
failure none = none
failure (some text) = some (backend text)

abbrev pub failed : Error → Response
failed e = record { mtu = pos 0; error = some e }

abbrev pub reply_mtu : Result Bytes ℤ → Response
reply_mtu (ok n) = record { mtu = n; error = none }
reply_mtu (err text) = failed (backend text)

unfoldable pub mark_created : Broker → Bytes → Broker
mark_created b name = record b { created = insert name true b.created }

unfoldable pub was_created : Broker → Bytes → Bool
was_created b name = has name b.created

unfoldable pub mark_removed : Broker → Bytes → Broker
mark_removed b name = record b { created = delete name b.created }

abbrev pub calling : Call → Broker → Broker
calling c b = record b { calls = c ∷ b.calls }

-- The case "ensure".
unfoldable pub handle_ensure : Settings → Broker → Params → Option Bytes → Broker × Response
unfolding mark_created
handle_ensure s b p answer = elim (validate_params s p) [
  | err e ↦ (b, failed e)
  | ok _ ↦
      let called = calling (ensures p (succeeded answer)) b in
      (
        if succeeded answer then mark_created called p.name else called,
        record { mtu = pos 0; error = failure answer },
      )
]

-- The case "remove".
unfoldable pub handle_remove : Settings → Broker → Bytes → Option Bytes → Broker × Response
unfolding was_created mark_removed
handle_remove s b name answer =
    if not (validate_name s name)
    then (b, failed invalid_name)
    else if not (was_created b name)
    then (b, failed not_created)
    else (let called = calling (removes name (succeeded answer)) b in
        (
          if succeeded answer then mark_removed called name else called,
          record { mtu = pos 0; error = failure answer },
        ))

-- The case "outer_mtu".
unfoldable pub handle_outer_mtu : Settings → Addr → Addr → Answers → Response
handle_outer_mtu s local remote answers =
    if not (is_valid local) || unusable local
    then failed bad_local
    else if is_valid s.gre_local && not (local == s.gre_local)
    then failed outer_not_allowed
    else if is_valid remote
    then (if unusable remote || different_family remote local
        then failed bad_remote
        else reply_mtu answers.path_mtu)
    else reply_mtu answers.link_mtu

unfoldable pub dispatch : Settings → Broker → Op → Request → Answers → Broker × Response
unfolding handle_ensure handle_remove handle_outer_mtu
dispatch s b ensure r answers = handle_ensure s b r.params answers.ensured
dispatch s b remove r answers = handle_remove s b r.name answers.removed
dispatch s b outer_mtu r answers = (b, handle_outer_mtu s r.local r.remote answers)
dispatch s b other r answers = (b, failed unknown_operation)

-- `handle` without an interleaving: `none` is a request that does not decode.
unfoldable pub handle : Settings → Broker → Option Request → Answers → Broker × Response
unfolding dispatch
handle s b none answers = (b, failed bad_request)
handle s b (some r) answers = dispatch s b r.op r answers

-- Where a handler stands: in front of a call of the backend, or of the mutex behind it.
pub data Job : Type 0 where
  will_ensure : Params → Job
  was_ensured : Bytes → Job
  will_remove : Bytes → Job
  was_removed : Bytes → Job

pub record Flight : Type 0 where
  pub broker : Broker
  pub jobs : List Job

pub data Move : Type 0 where
  receives : Request → Move
  advances : ℕ → Option Bytes → Move

unfoldable pub nth : ℕ → List Job → Option Job
nth i [] = none
nth zero (j ∷ js) = some j
nth (suc i) (j ∷ js) = nth i js

unfoldable pub remove_at : ℕ → List Job → List Job
remove_at i [] = []
remove_at zero (j ∷ js) = js
remove_at (suc i) (j ∷ js) = j ∷ remove_at i js

-- The checks of a request, up to the first call of the backend.
unfoldable pub receive : Settings → Broker → Op → Request → Option Job
unfolding was_created
receive s b ensure r = elim (validate_params s r.params) [
  | err e ↦ none
  | ok _ ↦ some (will_ensure r.params)
]
receive s b remove r =
    if validate_name s r.name && was_created b r.name then some (will_remove r.name) else none
receive s b outer_mtu r = none
receive s b other r = none

abbrev pub starting : Option Job → Flight → Flight
starting none f = f
starting (some j) f = record f { jobs = j ∷ f.jobs }

-- The next step of one handler, with the backend's answer where the step is a call of it.
unfoldable pub advance : Broker → Job → Option Bytes → Broker × Option Job
unfolding mark_created mark_removed
advance b (will_ensure p) answer = (
  calling (ensures p (succeeded answer)) b,
  if succeeded answer then some (was_ensured p.name) else none,
)
advance b (was_ensured name) answer = (mark_created b name, none)
advance b (will_remove name) answer = (
  calling (removes name (succeeded answer)) b,
  if succeeded answer then some (was_removed name) else none,
)
advance b (was_removed name) answer = (mark_removed b name, none)

unfoldable pub advanced : Flight → ℕ → Option Bytes → Option Job → Flight
unfolding advance remove_at
advanced f i answer none = f
advanced f i answer (some j) =
    let (b, next) = advance f.broker j answer in
    starting next (record { broker = b; jobs = remove_at i f.jobs })

-- One step of some handler. A move of a handler that is not there changes nothing.
unfoldable pub move : Settings → Flight → Move → Flight
unfolding receive nth advanced
move s f (receives r) = starting (receive s f.broker r.op r) f
move s f (advances i answer) = advanced f i answer (nth i f.jobs)

unfoldable pub fly : Settings → Flight → List Move → Flight
unfolding move
fly s f [] = f
fly s f (m ∷ ms) = fly s (move s f m) ms

-- The broker when `Serve` starts.
unfoldable pub idle : Broker
idle = record { created = []; calls = [] }

unfoldable pub on_duty : Flight
unfolding idle
on_duty = record { broker = idle; jobs = [] }

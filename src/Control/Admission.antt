-- ===== src/Control/Admission.antt =====
-- The bound on pending handshakes of internal/control/server.go: `Serve`, `reserve` and `release`.
-- The semaphore is the number of its taken slots. Each section under `perIPMu`, and each channel
-- operation, is one step, and steps of the accept loop and of the handlers interleave.
pub mod Counting
pub mod Steps
pub mod Invariant
pub mod Slots
use gremlind.Prelude.{
  ℕ, zero, suc, ◌+◌, ◌-◌, Bool, true, false, Option, none, some, List, [], ◌∷◌, leb, ltb, ◌==◌,
  nat_eq, list_eq, if◌then◌else◌,
}
use gremlind.Prelude.Bytes.{Bytes}
use gremlind.Prelude.Maps.{Map, lookup, insert, delete}

abbrev pub default_max_pending_handshakes : ℕ
default_max_pending_handshakes = 256

abbrev pub default_max_pending_per_ip : ℕ
default_max_pending_per_ip = 16

-- The fields of `Server` that admission reads and writes.
pub record Server : Type 0 where
  pub max_pending : ℕ
  pub max_per_ip : ℕ
  pub sem : ℕ
  pub per_ip : Map Bytes ℕ

abbrev pub or_default : ℕ → ℕ → ℕ
or_default zero d = d
or_default (suc n) d = suc n

-- What `Serve` sets up. A setting that is not positive is 0 here.
unfoldable pub serve : ℕ → ℕ → Server
serve max_pending max_per_ip = record {
  max_pending = or_default max_pending default_max_pending_handshakes;
  max_per_ip = or_default max_per_ip default_max_pending_per_ip;
  sem = 0;
  per_ip = [];
}

-- A missing key of the map reads as 0.
abbrev pub or_zero : Option ℕ → ℕ
or_zero none = 0
or_zero (some n) = n

-- `s.sem <- struct{}{}` in a `select` with a default.
unfoldable pub take_slot : Server → Option Server
take_slot s = if leb s.max_pending s.sem then none else some (record s { sem = suc s.sem })

-- `<-s.sem`
unfoldable pub give_slot : Server → Server
give_slot s = record s { sem = s.sem - 1 }

-- The section of `reserve` under the mutex, and whether it counts the address.
unfoldable pub count_ip : Server → Bytes → Server × Bool
count_ip s ip =
    if leb s.max_per_ip (or_zero (lookup ip s.per_ip))
    then (s, false)
    else (record s { per_ip = insert ip (suc (or_zero (lookup ip s.per_ip))) s.per_ip }, true)

-- The section of `release` under the mutex.
unfoldable pub drop_ip : Server → Bytes → Server
drop_ip s ip = elim (or_zero (lookup ip s.per_ip)) [
  | zero ↦ s
  | suc zero ↦ record s { per_ip = delete ip s.per_ip }
  | suc (suc n) ↦ record s { per_ip = insert ip (suc n) s.per_ip }
]

-- `reserve` without an interleaving.
unfoldable pub reserve : Server → Bytes → Server × Bool
unfolding take_slot count_ip give_slot
reserve s ip = elim (take_slot s) [
  | none ↦ (s, false)
  | some t ↦ let (u, counted) = count_ip t ip in if counted then (u, true) else (give_slot u, false)
]

-- `release` without an interleaving.
unfoldable pub release : Server → Bytes → Server
unfolding drop_ip give_slot
release s ip = give_slot (drop_ip s ip)

-- Where the accept loop stands: at `Accept`, between the two tests of `reserve`, or in front of its
-- `<-s.sem`.
pub data Accepting : Type 0 where
  waiting : Accepting
  holding : Bytes → Accepting
  refusing : Accepting

-- The server in flight: the handlers before their `release`, by source, and the number of those
-- between its two steps.
pub record Flight : Type 0 where
  pub server : Server
  pub accepting : Accepting
  pub handshakes : List Bytes
  pub leaving : ℕ

pub data Move : Type 0 where
  arrives : Bytes → Move
  checks : Move
  gives_back : Move
  finishes : ℕ → Move
  leaves : Move

unfoldable pub nth : ℕ → List Bytes → Option Bytes
nth i [] = none
nth zero (x ∷ s) = some x
nth (suc i) (x ∷ s) = nth i s

unfoldable pub remove_at : ℕ → List Bytes → List Bytes
remove_at i [] = []
remove_at zero (x ∷ s) = s
remove_at (suc i) (x ∷ s) = x ∷ remove_at i s

unfoldable pub arrive : Flight → Bytes → Flight
unfolding take_slot
arrive f ip = elim (take_slot f.server) [
  | none ↦ f
  | some s ↦ record f { server = s; accepting = holding ip }
]

unfoldable pub check : Flight → Bytes → Flight
unfolding count_ip
check f ip =
    let (s, counted) = count_ip f.server ip in
    if counted
    then record f { server = s; accepting = waiting; handshakes = ip ∷ f.handshakes }
    else record f { server = s; accepting = refusing }

unfoldable pub finish : Flight → ℕ → Flight
unfolding drop_ip nth remove_at
finish f i = elim (nth i f.handshakes) [
  | none ↦ f
  | some ip ↦ record f {
    server = drop_ip f.server ip;
    handshakes = remove_at i f.handshakes;
    leaving = suc f.leaving;
  }
]

-- One step of the accept loop or of a handler. A move that no goroutine stands at changes nothing.
unfoldable pub move : Flight → Move → Flight
unfolding arrive check finish give_slot
move f (arrives ip) = elim f.accepting [ waiting ↦ arrive f ip | holding _ ↦ f | refusing ↦ f ]
move f checks = elim f.accepting [ waiting ↦ f | holding ip ↦ check f ip | refusing ↦ f ]
move f gives_back = elim f.accepting [
  | waiting ↦ f
  | holding _ ↦ f
  | refusing ↦ record f { server = give_slot f.server; accepting = waiting }
]
move f (finishes i) = finish f i
move f leaves = elim f.leaving [
  | zero ↦ f
  | suc n ↦ record f { server = give_slot f.server; leaving = n }
]

unfoldable pub fly : Flight → List Move → Flight
unfolding move
fly f [] = f
fly f (m ∷ ms) = fly (move f m) ms

unfoldable pub take_off : Server → Flight
take_off s = record { server = s; accepting = waiting; handshakes = []; leaving = 0 }

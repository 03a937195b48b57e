-- ===== src/Provision/Race.antt =====
-- What an interleaving of internal/provisionrpc/rpc.go can lose.
use gremlind.Prelude.{
  ◌≡◌, refl, ◌∙◌, inl, inr, true, false, List, [], ◌∷◌, none, some, ok, nat_eq, list_eq, arith,
  Bool-cases, ℕ,
}
use gremlind.Prelude.Maps.{has-insert, has-delete}
use gremlind.Net.{invalid}
use gremlind.Gre.Params.{Params}
use gremlind.Provision.Checks.{Settings, validate_name, validate_params}
use gremlind.Provision.Broker.{
  Op, ensure, remove, Request, Call, ensures, removes, was_created, mark_created, mark_removed,
  calling, Move, receives, advances, nth, remove_at, receive, advance, advanced, move, fly, on_duty,
  idle, Job, will_ensure, will_remove, was_removed, Broker,
}
use gremlind.Provision.Tracking.{live}

abbrev pub asking : Op → Params → Request
asking op p = record { op = op; params = p; name = p.name; local = invalid; remote = invalid }

-- An interface is created, removed and created again, and the handler of the removal takes the mutex
-- last.
abbrev pub late_removal : Params → List Move
late_removal p =
    receives (asking ensure p)
    ∷ advances 0 none
    ∷ advances 0 none
    ∷ receives (asking remove p)
    ∷ advances 0 none
    ∷ receives (asking ensure p)
    ∷ advances 0 none
    ∷ advances 0 none
    ∷ advances 0 none
    ∷ []

module _ (s : Settings) (p : Params) (valid : validate_params s p ≡ ok tt) where
  name_valid : validate_name s p.name ≡ true
  unfolding validate_params
  name_valid = elim (Bool-cases (validate_name s p.name)) [
    | inl good ↦ good
    | inr bad ↦ ground (arith, valid, bad)
  ]

  asked_ensure : (b : Broker) → receive s b ensure (asking ensure p) ≡ some (will_ensure p)
  unfolding receive
  asked_ensure b = rw (valid, receive) refl

  asked_remove :
      (b : Broker)
      → was_created b p.name ≡ true
      → receive s b remove (asking remove p) ≡ some (will_remove p.name)
  unfolding receive
  asked_remove b made = rw (name_valid, made, receive) refl

  created_here : (b : Broker) → was_created (mark_created b p.name) p.name ≡ true
  unfolding was_created mark_created
  created_here b =
      ground
        (arith, has-insert p.name p.name true b.created, (list_eq {A = ℕ}).decides p.name p.name)

  removed_here : (b : Broker) → was_created (mark_removed b p.name) p.name ≡ false
  unfolding was_created mark_removed
  removed_here b =
      ground (arith, has-delete p.name p.name b.created, (list_eq {A = ℕ}).decides p.name p.name)

  live_here : (calls : List Call) → live p.name (ensures p true ∷ calls) ≡ true
  unfolding live
  live_here calls = ground (arith, (list_eq {A = ℕ}).decides p.name p.name)

  abbrev made : Broker → Broker
  made b = mark_created (calling (ensures p true) b) p.name

  fly-ensure :
      (b : Broker) (js : List Job) (ms : List Move)
      → fly s
          (record { broker = b; jobs = js })
          (receives (asking ensure p) ∷ advances 0 none ∷ advances 0 none ∷ ms)
        ≡ fly s (record { broker = made b; jobs = js }) ms
  unfolding fly move advanced advance nth remove_at
  fly-ensure b js ms = rw (asked_ensure b) refl

  fly-remove :
      (b : Broker) (js : List Job) (ms : List Move)
      → was_created b p.name ≡ true
      → fly s (record { broker = b; jobs = js }) (receives (asking remove p) ∷ advances 0 none ∷ ms)
        ≡ fly s
            (record { broker = calling (removes p.name true) b; jobs = was_removed p.name ∷ js })
            ms
  unfolding fly move advanced advance nth remove_at
  fly-remove b js ms h = rw (asked_remove b h) refl

  abbrev again : List Move
  again = receives (asking ensure p) ∷ advances 0 none ∷ advances 0 none ∷ advances 0 none ∷ []

  abbrev removal : List Move
  removal = receives (asking remove p) ∷ advances 0 none ∷ again

  lands : fly s on_duty (late_removal p) ≡ record {
    broker = mark_removed (made (calling (removes p.name true) (made idle))) p.name;
    jobs = [];
  }
  unfolding on_duty fly move advanced advance nth remove_at
  lands =
      fly-ensure idle [] removal
      ∙ fly-remove (made idle) [] again (created_here (calling (ensures p true) idle))
      ∙ fly-ensure (calling (removes p.name true) (made idle)) (was_removed p.name ∷ [])
          (advances 0 none ∷ [])

  -- An interface that passes the checks is created, removed and created again, and the handler of
  -- the removal takes the mutex last. Then no handler is left and the last call for the interface
  -- created it, but the broker does not know of it, so that it refuses to remove it.
  pub fly-late_removal :
      let f = fly s on_duty (late_removal p) in
      (live p.name f.broker.calls ≡ true) × (was_created f.broker p.name ≡ false) × (f.jobs ≡ [])
  unfolding mark_removed mark_created
  fly-late_removal =
      let second = calling (removes p.name true) (made idle) in
      rw lands (live_here second.calls, removed_here (made second), refl)

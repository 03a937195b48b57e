-- ===== src/Provision/Tracking.antt =====
-- What the broker of internal/provisionrpc/rpc.go has created, by the calls that it made, when it
-- handles one request after the other.
use gremlind.Prelude.{
  ◌≡◌, sym, ◌∙◌, inl, inr, Bool, true, false, List, [], ◌∷◌, Option, none, some, ok, ◌==◌, nat_eq,
  list_eq, arith, if◌then◌else◌, Bool-cases, Result-cases,
}
use gremlind.Prelude.Bytes.{Bytes}
use gremlind.Prelude.Maps.{has, has-nil, has-insert, has-delete}
use gremlind.Gre.Params.{Params}
use gremlind.Provision.Checks.{Settings, validate_name, validate_params}
use gremlind.Provision.Broker.{
  Op, ensure, remove, outer_mtu, other, Request, Answers, Call, ensures, removes, Broker,
  handle_ensure, handle_remove, was_created, mark_created, mark_removed, dispatch, handle, idle,
  succeeded, calling,
}

-- The interface of that name was created by a call and has not been removed by one since.
unfoldable pub live : Bytes → List Call → Bool
live n [] = false
live n (ensures p true ∷ calls) = if p.name == n then true else live n calls
live n (ensures p false ∷ calls) = live n calls
live n (removes m true ∷ calls) = if m == n then false else live n calls
live n (removes m false ∷ calls) = live n calls

-- Every call was allowed when it was made.
abbrev pub Allowed : Settings → List Call → Type 0
Allowed s [] = Unit
Allowed s (ensures p done ∷ calls) = (validate_params s p ≡ ok tt) × Allowed s calls
Allowed s (removes n done ∷ calls) =
    (validate_name s n ≡ true) × (live n calls ≡ true) × Allowed s calls

pub record Tracks (s : Settings) (b : Broker) : Type 0 where
  pub exact : (n : Bytes) → has n b.created ≡ live n b.calls
  pub allowed : Allowed s b.calls

unfoldable pub handle_all : Settings → Broker → List (Option Request × Answers) → Broker
handle_all s b [] = b
handle_all s b ((r, answers) ∷ rs) = handle_all s (handle s b r answers).0 rs

module _ (s : Settings) (b : Broker) (t : Tracks s b) where
  ensured-Tracks :
      (p : Params)
      → validate_params s p ≡ ok tt
      → Tracks s (mark_created (calling (ensures p true) b) p.name)
  unfolding mark_created live
  ensured-Tracks p valid = record {
    exact = λ n. ground (arith, has-insert p.name n true b.created, t.exact n);
    allowed = (valid, t.allowed);
  }

  not_ensured-Tracks :
      (p : Params) → validate_params s p ≡ ok tt → Tracks s (calling (ensures p false) b)
  unfolding live
  not_ensured-Tracks p valid = record { exact = t.exact; allowed = (valid, t.allowed) }

  module _ (name : Bytes) (valid : validate_name s name ≡ true)
      (made : was_created b name ≡ true) where
    created-live : live name b.calls ≡ true
    unfolding was_created
    created-live = sym (t.exact name) ∙ made

    removed-Tracks : Tracks s (mark_removed (calling (removes name true) b) name)
    unfolding mark_removed live
    removed-Tracks = record {
      exact = λ n. ground (arith, has-delete name n b.created, t.exact n);
      allowed = (valid, created-live, t.allowed);
    }

    not_removed-Tracks : Tracks s (calling (removes name false) b)
    unfolding live
    not_removed-Tracks = record { exact = t.exact; allowed = (valid, created-live, t.allowed) }

  ensure-Tracks : (p : Params) (answer : Option Bytes) → Tracks s (handle_ensure s b p answer).0
  unfolding handle_ensure
  ensure-Tracks p answer = elim (Result-cases (validate_params s p)) [
    | inr (e, refused) ↦ rw (refused, handle_ensure) t
    | inl (u, valid) ↦ rw (valid, handle_ensure) (by_answer answer valid)
  ]
    where
      by_answer :
          (answer : Option Bytes)
          → validate_params s p ≡ ok tt
          → Tracks s (
              if succeeded answer
              then mark_created (calling (ensures p (succeeded answer)) b) p.name
              else calling (ensures p (succeeded answer)) b)
      by_answer none valid = ensured-Tracks p valid
      by_answer (some text) valid = not_ensured-Tracks p valid

  remove-Tracks :
      (name : Bytes) (answer : Option Bytes) → Tracks s (handle_remove s b name answer).0
  unfolding handle_remove
  remove-Tracks name answer = elim (Bool-cases (validate_name s name)) [
    | inr bad ↦ rw (bad, handle_remove) t
    | inl valid ↦
        rw (valid, handle_remove)
          (elim (Bool-cases (was_created b name)) [
            | inr unknown ↦ rw unknown t
            | inl made ↦ rw made (by_answer answer valid made)
          ])
  ]
    where
      by_answer :
          (answer : Option Bytes)
          → validate_name s name ≡ true
          → was_created b name ≡ true
          → Tracks s (
              if succeeded answer
              then mark_removed (calling (removes name (succeeded answer)) b) name
              else calling (removes name (succeeded answer)) b)
      by_answer none valid made = removed-Tracks name valid made
      by_answer (some text) valid made = not_removed-Tracks name valid made

dispatch-Tracks :
    (s : Settings) (b : Broker) (op : Op) (r : Request) (answers : Answers)
    → Tracks s b
    → Tracks s (dispatch s b op r answers).0
unfolding dispatch
dispatch-Tracks s b ensure r answers t = ensure-Tracks s b t r.params answers.ensured
dispatch-Tracks s b remove r answers t = remove-Tracks s b t r.name answers.removed
dispatch-Tracks s b outer_mtu r answers t = t
dispatch-Tracks s b other r answers t = t

handle-Tracks :
    (s : Settings) (b : Broker) (r : Option Request) (answers : Answers)
    → Tracks s b
    → Tracks s (handle s b r answers).0
unfolding handle
handle-Tracks s b none answers t = t
handle-Tracks s b (some r) answers t = dispatch-Tracks s b r.op r answers t

handle_all-kept :
    (s : Settings) (b : Broker) (rs : List (Option Request × Answers))
    → Tracks s b
    → Tracks s (handle_all s b rs)
unfolding handle_all
handle_all-kept s b [] t = t
handle_all-kept s b ((r, answers) ∷ rs) t =
    handle_all-kept s (handle s b r answers).0 rs (handle-Tracks s b r answers t)

-- Whatever requests the broker handles one after the other, and whatever the backend answers, its
-- set of created interfaces holds exactly the names that a successful call created and none has
-- removed since. Every call that creates an interface passed the checks, and every call that
-- removes one was for an accepted name that was in this state.
pub handle_all-Tracks :
    (s : Settings) (rs : List (Option Request × Answers)) → Tracks s (handle_all s idle rs)
unfolding idle live
handle_all-Tracks s rs = handle_all-kept s idle rs (record { exact = λ n. has-nil n; allowed = tt })

-- ===== src/Provision/Interleaving.antt =====
-- The handlers of internal/provisionrpc/rpc.go in any interleaving.
use gremlind.Prelude.{
  ℕ, zero, suc, ◌≡◌, refl, subst, inl, inr, Bool, true, false, List, [], ◌∷◌, Option, none, some,
  ok, ◌==◌, nat_eq, list_eq, arith, if◌then◌else◌, Bool-cases, Result-cases, All,
}
use gremlind.Prelude.Bytes.{Bytes}
use gremlind.Prelude.Maps.{has, has-nil, has-insert, has-delete}
use gremlind.Gre.Params.{Params}
use gremlind.Provision.Checks.{Settings, validate_name, validate_params}
use gremlind.Provision.Broker.{
  Op, ensure, remove, outer_mtu, other, Request, Call, ensures, removes, Broker, was_created,
  mark_created, mark_removed, calling, Job, will_ensure, was_ensured, will_remove, was_removed,
  Flight, Move, receives, advances, nth, remove_at, receive, starting, advance, advanced, move, fly,
  idle, on_duty,
}

-- Some call has created an interface of that name.
unfoldable pub once : Bytes → List Call → Bool
once n [] = false
once n (ensures p true ∷ calls) = if p.name == n then true else once n calls
once n (ensures p false ∷ calls) = once n calls
once n (removes m done ∷ calls) = once n calls

abbrev pub Warranted : Settings → List Call → Type 0
Warranted s [] = Unit
Warranted s (ensures p done ∷ calls) = (validate_params s p ≡ ok tt) × Warranted s calls
Warranted s (removes n done ∷ calls) =
    (validate_name s n ≡ true) × (once n calls ≡ true) × Warranted s calls

-- What a handler has checked when it stands there.
abbrev Backed : Settings → List Call → Job → Type 0
Backed s calls (will_ensure p) = validate_params s p ≡ ok tt
Backed s calls (was_ensured n) = once n calls ≡ true
Backed s calls (will_remove n) = (validate_name s n ≡ true) × (once n calls ≡ true)
Backed s calls (was_removed n) = Unit

abbrev NextBacked : Settings → List Call → Option Job → Type 0
NextBacked s calls none = Unit
NextBacked s calls (some j) = Backed s calls j

record Safe (s : Settings) (b : Broker) (jobs : List Job) : Type 0 where
  created : (n : Bytes) → has n b.created ≡ true → once n b.calls ≡ true
  backed : All (Backed s b.calls) jobs
  warranted : Warranted s b.calls

once-cons :
    (n : Bytes) (c : Call) (calls : List Call) → once n calls ≡ true → once n (c ∷ calls) ≡ true
unfolding once
once-cons n (ensures p true) calls h = ground arith
once-cons n (ensures p false) calls h = h
once-cons n (removes m done) calls h = h

Backed-cons :
    (s : Settings) (c : Call) (calls : List Call) (j : Job)
    → Backed s calls j
    → Backed s (c ∷ calls) j
Backed-cons s c calls (will_ensure p) h = h
Backed-cons s c calls (was_ensured n) h = once-cons n c calls h
Backed-cons s c calls (will_remove n) (v, h) = (v, once-cons n c calls h)
Backed-cons s c calls (was_removed n) h = tt

All-Backed :
    (s : Settings) (c : Call) (calls : List Call) (jobs : List Job)
    → All (Backed s calls) jobs
    → All (Backed s (c ∷ calls)) jobs
All-Backed s c calls [] h = tt
All-Backed s c calls (j ∷ js) h = (Backed-cons s c calls j h.0, All-Backed s c calls js h.1)

module _ (P : Job → Type 0) where
  All-remove_at : (i : ℕ) (jobs : List Job) → All P jobs → All P (remove_at i jobs)
  unfolding remove_at
  All-remove_at zero [] h = tt
  All-remove_at (suc i) [] h = tt
  All-remove_at zero (j ∷ js) h = h.1
  All-remove_at (suc i) (j ∷ js) h = (h.0, All-remove_at i js h.1)

  All-nth : (i : ℕ) (jobs : List Job) {j : Job} → All P jobs → nth i jobs ≡ some j → P j
  unfolding nth
  All-nth zero [] h e = cc
  All-nth (suc i) [] h e = cc
  All-nth zero (j ∷ js) h e = subst P (cc) h.0
  All-nth (suc i) (j ∷ js) h e = All-nth i js h.1 e

-- The call of a handler, with the jobs that the others have.
calling-Safe :
    (s : Settings) (b : Broker) (jobs : List Job) (c : Call)
    → Safe s b jobs
    → Warranted s (c ∷ b.calls)
    → Safe s (calling c b) jobs
calling-Safe s b jobs c safe w = record {
  created = λ n h. once-cons n c b.calls (safe.created n h);
  backed = All-Backed s c b.calls jobs safe.backed;
  warranted = w;
}

mark_created-Safe :
    (s : Settings) (b : Broker) (jobs : List Job) (name : Bytes)
    → Safe s b jobs
    → once name b.calls ≡ true
    → Safe s (mark_created b name) jobs
unfolding mark_created
mark_created-Safe s b jobs name safe h = record {
  created = λ n made.
      ground
        (arith, has-insert name n true b.created, safe.created n, (list_eq {A = ℕ}).decides name n);
  backed = safe.backed;
  warranted = safe.warranted;
}

mark_removed-Safe :
    (s : Settings) (b : Broker) (jobs : List Job) (name : Bytes)
    → Safe s b jobs
    → Safe s (mark_removed b name) jobs
unfolding mark_removed
mark_removed-Safe s b jobs name safe = record {
  created = λ n made. ground (arith, has-delete name n b.created, safe.created n);
  backed = safe.backed;
  warranted = safe.warranted;
}

starting-Safe :
    (s : Settings) (f : Flight) (next : Option Job)
    → Safe s f.broker f.jobs
    → NextBacked s f.broker.calls next
    → Safe s (starting next f).broker (starting next f).jobs
starting-Safe s f none safe h = safe
starting-Safe s f (some j) safe h = record {
  created = safe.created;
  backed = (h, safe.backed);
  warranted = safe.warranted;
}

once_here : (p : Params) (calls : List Call) → once p.name (ensures p true ∷ calls) ≡ true
unfolding once
once_here p calls = ground (arith, (list_eq {A = ℕ}).decides p.name p.name)

-- One handler's step, and what it has checked behind it.
module _ (s : Settings) (b : Broker) (jobs : List Job) (safe : Safe s b jobs) where
  advance-Safe :
      (j : Job) (answer : Option Bytes)
      → Backed s b.calls j
      → let (after, next) = advance b j answer in Safe s after jobs × NextBacked s after.calls next
  unfolding advance
  advance-Safe (will_ensure p) none h =
      (calling-Safe s b jobs (ensures p true) safe (h, safe.warranted), once_here p b.calls)
  advance-Safe (will_ensure p) (some text) h =
      (calling-Safe s b jobs (ensures p false) safe (h, safe.warranted), tt)
  advance-Safe (was_ensured n) answer h = (mark_created-Safe s b jobs n safe h, tt)
  advance-Safe (will_remove n) none h =
      (calling-Safe s b jobs (removes n true) safe (h.0, h.1, safe.warranted), tt)
  advance-Safe (will_remove n) (some text) h =
      (calling-Safe s b jobs (removes n false) safe (h.0, h.1, safe.warranted), tt)
  advance-Safe (was_removed n) answer h = (mark_removed-Safe s b jobs n safe, tt)

  receive-Backed : (op : Op) (r : Request) → NextBacked s b.calls (receive s b op r)
  unfolding receive was_created
  receive-Backed ensure r = elim (Result-cases (validate_params s r.params)) [
    | inl (u, valid) ↦ rw (valid, receive) valid
    | inr (x, bad) ↦ rw (bad, receive) tt
  ]
  receive-Backed remove r = elim (Bool-cases (validate_name s r.name)) [
    | inr bad ↦ rw (bad, receive) tt
    | inl valid ↦
        rw (valid, receive)
          (elim (Bool-cases (has r.name b.created)) [
            | inr unknown ↦ rw unknown tt
            | inl made ↦ rw made (valid, safe.created r.name made)
          ])
  ]
  receive-Backed outer_mtu r = tt
  receive-Backed other r = tt

advanced-Safe :
    (s : Settings) (f : Flight) (i : ℕ) (answer : Option Bytes) (found : Option Job)
    → Safe s f.broker f.jobs
    → NextBacked s f.broker.calls found
    → Safe s (advanced f i answer found).broker (advanced f i answer found).jobs
unfolding advanced
advanced-Safe s f i answer none safe h = safe
advanced-Safe s f i answer (some j) safe h =
    let others : Safe s f.broker (remove_at i f.jobs) = record {
      created = safe.created;
      backed = All-remove_at (Backed s f.broker.calls) i f.jobs safe.backed;
      warranted = safe.warranted;
    } in
    let (after, next) = advance-Safe s f.broker (remove_at i f.jobs) others j answer h in
    starting-Safe s _ (advance f.broker j answer).1 after next

move-Safe :
    (s : Settings) (f : Flight) (m : Move)
    → Safe s f.broker f.jobs
    → Safe s (move s f m).broker (move s f m).jobs
unfolding move
move-Safe s f (receives r) safe =
    starting-Safe s f (receive s f.broker r.op r) safe
      (receive-Backed s f.broker f.jobs safe r.op r)
move-Safe s f (advances i answer) safe =
    advanced-Safe s f i answer (nth i f.jobs) safe (nth-Backed (nth i f.jobs) refl)
  where
    nth-Backed : (found : Option Job) → nth i f.jobs ≡ found → NextBacked s f.broker.calls found
    nth-Backed none e = tt
    nth-Backed (some j) e = All-nth (Backed s f.broker.calls) i f.jobs safe.backed e

fly-Safe :
    (s : Settings) (f : Flight) (ms : List Move)
    → Safe s f.broker f.jobs
    → Safe s (fly s f ms).broker (fly s f ms).jobs
unfolding fly
fly-Safe s f [] safe = safe
fly-Safe s f (m ∷ ms) safe = fly-Safe s (move s f m) ms (move-Safe s f m safe)

-- Whatever requests arrive, however their handlers interleave, and whatever the backend answers,
-- every call that creates an interface has passed the checks, and every call that removes one is
-- for an accepted name that an earlier successful call created.
pub fly-Warranted : (s : Settings) (ms : List Move) → Warranted s (fly s on_duty ms).broker.calls
unfolding on_duty idle
fly-Warranted s ms =
    (fly-Safe s on_duty ms (record {
      created = λ n h. ground (arith, has-nil n, h);
      backed = tt;
      warranted = tt;
    })).warranted

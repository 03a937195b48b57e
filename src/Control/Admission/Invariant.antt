-- ===== src/Control/Admission/Invariant.antt =====
-- The limits that admission keeps under any interleaving.
use gremlind.Prelude.{
  ℕ, zero, suc, ◌+◌, ◌≤◌, ◌≡◌, refl, sym, ap, ◌∙◌, ◌⊎◌, ◌↔◌, inl, inr, none, List, [], ◌∷◌, length,
  nat_eq, list_eq, arith, Option-cases,
}
use gremlind.Prelude.Bytes.{Bytes}
use gremlind.Prelude.Maps.{lookup, lookup-nil}
use gremlind.Control.Admission.{
  serve, or_zero, or_default, default_max_pending_handshakes, default_max_pending_per_ip, Flight,
  Move, arrives, checks, gives_back, finishes, leaves, move, fly, take_off,
}
use gremlind.Control.Admission.Counting.{count, held}
use gremlind.Control.Admission.Steps.{
  Admits, arrive-Admits, check-Admits, finish-Admits, give_back-Admits, leave-Admits,
  Accepting-cases,
}

ℕ-cases : (n : ℕ) → (n ≡ 0) ⊎ ((m : ℕ) × (n ≡ suc m))
ℕ-cases zero = inl refl
ℕ-cases (suc m) = inr (m, refl)

move-Admits :
    {most each : ℕ} → (f : Flight) (m : Move) → Admits most each f → Admits most each (move f m)
unfolding move
move-Admits f (arrives ip) a = elim (Accepting-cases f.accepting) [
  | inl e ↦ rw (e, move) (arrive-Admits f ip e a)
  | inr (inl (x, e)) ↦ rw (e, move) a
  | inr (inr e) ↦ rw (e, move) a
]
move-Admits f checks a = elim (Accepting-cases f.accepting) [
  | inl e ↦ rw (e, move) a
  | inr (inl (x, e)) ↦ rw (e, move) (check-Admits f x e a)
  | inr (inr e) ↦ rw (e, move) a
]
move-Admits f gives_back a = elim (Accepting-cases f.accepting) [
  | inl e ↦ rw (e, move) a
  | inr (inl (x, e)) ↦ rw (e, move) a
  | inr (inr e) ↦ rw (e, move) (give_back-Admits f e a)
]
move-Admits f (finishes i) a = finish-Admits f i a
move-Admits f leaves a = elim (ℕ-cases f.leaving) [
  | inl e ↦ rw (e, move) a
  | inr (n, e) ↦ rw (e, move) (leave-Admits f n e a)
]

fly-Admits :
    {most each : ℕ}
    → (f : Flight) (ms : List Move) → Admits most each f
    → Admits most each (fly f ms)
unfolding fly
fly-Admits f [] a = a
fly-Admits f (m ∷ ms) a = fly-Admits (move f m) ms (move-Admits f m a)

take_off-Admits :
    (max_pending max_per_ip : ℕ)
    → Admits
        (or_default max_pending default_max_pending_handshakes)
        (or_default max_per_ip default_max_pending_per_ip)
        (take_off (serve max_pending max_per_ip))
unfolding take_off serve
take_off-Admits max_pending max_per_ip = record {
  slots = refl;
  bounded = omega arith;
  counts = λ ip. ap or_zero (lookup-nil ip);
  per_ip = λ ip. omega arith;
  pending_limit = refl;
  ip_limit = refl;
  present = λ ip n h. ground (arith, lookup-nil {V = ℕ} ip, h);
}

module _ (max_pending max_per_ip : ℕ) (ms : List Move) where
  abbrev most : ℕ
  most = or_default max_pending default_max_pending_handshakes

  abbrev each : ℕ
  each = or_default max_per_ip default_max_pending_per_ip

  abbrev state : Flight
  state = fly (take_off (serve max_pending max_per_ip)) ms

  reached : Admits most each state
  reached = fly-Admits _ ms (take_off-Admits max_pending max_per_ip)

  -- However accepts, checks and releases interleave, no more handshakes are pending than the global
  -- limit, and no more from one source than the limit of a source; a setting of 0 stands for the
  -- default limit.
  pub fly-limits :
      (length (fly (take_off (serve max_pending max_per_ip)) ms).handshakes
        ≤ or_default max_pending default_max_pending_handshakes)
      × ((ip : Bytes)
          → count ip (fly (take_off (serve max_pending max_per_ip)) ms).handshakes
            ≤ or_default max_per_ip default_max_pending_per_ip)
  fly-limits = (
    omega (arith, reached.slots, reached.bounded, reached.pending_limit),
    λ ip. rw (← reached.ip_limit) (reached.per_ip ip),
  )

  -- However they interleave, the map has an entry for a source exactly while a handshake of that
  -- source is pending, so it does not grow with the sources that have come and gone.
  pub fly-entries :
      (ip : Bytes)
      → (lookup ip (fly (take_off (serve max_pending max_per_ip)) ms).server.per_ip ≡ none)
        ↔ (count ip (fly (take_off (serve max_pending max_per_ip)) ms).handshakes ≡ 0)
  fly-entries ip = (
    λ h. sym (reached.counts ip) ∙ ap or_zero h,
    λ h. elim (Option-cases (lookup ip state.server.per_ip)) [
      | inl e ↦ e
      | inr (n, e) ↦
          let some_pending = reached.present ip n e in
          let zero_pending : n ≡ 0 = sym (ap or_zero e) ∙ reached.counts ip ∙ h in
          absurd (omega (arith, some_pending, zero_pending))
    ],
  )

  -- However they interleave, whoever stands in front of `<-s.sem` finds a token in the channel: the
  -- taken slots are those of the pending handshakes, of the releases under way and of the accept loop.
  pub fly-slots :
      let f = fly (take_off (serve max_pending max_per_ip)) ms in
      f.server.sem ≡ length f.handshakes + f.leaving + held f.accepting
  fly-slots = reached.slots

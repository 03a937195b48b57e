-- ===== src/Control/Admission/Steps.antt =====
-- Each step of admission, of internal/control/server.go, and the limits.
use gremlind.Prelude.{
  ℕ, suc, ◌+◌, ◌≤◌, ◌≡◌, refl, ap, ◌∙◌, ◌⊎◌, inl, inr, some, leb, length, nat_eq, list_eq, arith,
  Bool-cases, Option-cases,
}
use gremlind.Prelude.Bytes.{Bytes}
use gremlind.Prelude.Maps.{lookup, lookup-insert}
use gremlind.Control.Admission.{
  or_zero, take_slot, give_slot, count_ip, Accepting, waiting, holding, refusing, Flight, nth,
  arrive, check, finish,
}
use gremlind.Control.Admission.Counting.{
  count, held, remove_at-length, remove_at-count, bytes_iff, drop_ip-counts, drop_ip-present,
  drop_ip_frame,
}

pub record Admits (most each : ℕ) (f : Flight) : Type 0 where
  pub pending_limit : f.server.max_pending ≡ most
  pub ip_limit : f.server.max_per_ip ≡ each
  pub slots : f.server.sem ≡ length f.handshakes + f.leaving + held f.accepting
  pub bounded : f.server.sem ≤ f.server.max_pending
  pub counts : (ip : Bytes) → or_zero (lookup ip f.server.per_ip) ≡ count ip f.handshakes
  pub per_ip : (ip : Bytes) → count ip f.handshakes ≤ f.server.max_per_ip
  pub present : (ip : Bytes) (n : ℕ) → lookup ip f.server.per_ip ≡ some n → 1 ≤ n

pub arrive-Admits :
    {most each : ℕ}
    → (f : Flight) (ip : Bytes) → f.accepting ≡ waiting
    → Admits most each f
    → Admits most each (arrive f ip)
unfolding arrive take_slot
arrive-Admits f ip at a = elim (Bool-cases (leb f.server.max_pending f.server.sem)) [
  | inl full ↦ rw (full, arrive) a
  | inr free ↦
      rw (free, arrive)
        (record {
          slots = ground (arith, a.slots, ap held at);
          bounded = ground (arith, free);
          pending_limit = a.pending_limit;
          ip_limit = a.ip_limit;
          counts = a.counts;
          per_ip = a.per_ip;
          present = a.present;
        })
]

pub check-Admits :
    {most each : ℕ}
    → (f : Flight) (ip : Bytes) → f.accepting ≡ holding ip
    → Admits most each f
    → Admits most each (check f ip)
unfolding check count_ip
check-Admits f ip at a =
    elim (Bool-cases (leb f.server.max_per_ip (or_zero (lookup ip f.server.per_ip)))) [
      | inl full ↦
          rw (full, check)
            (record {
              slots = ground (arith, a.slots, ap held at);
              bounded = a.bounded;
              pending_limit = a.pending_limit;
              ip_limit = a.ip_limit;
              counts = a.counts;
              per_ip = a.per_ip;
              present = a.present;
            })
      | inr free ↦
          rw (free, check)
            (record {
              slots = ground (arith, a.slots, ap held at);
              bounded = a.bounded;
              pending_limit = a.pending_limit;
              ip_limit = a.ip_limit;
              counts = λ j. ground (
                arith,
                lookup-insert ip j (suc (or_zero (lookup ip f.server.per_ip))) f.server.per_ip,
                a.counts ip,
                a.counts j,
                bytes_iff ip j,
                ap (λ x. count x f.handshakes),
              );
              per_ip = λ j. ground (arith, free, a.counts ip, a.per_ip j, bytes_iff ip j);
              present = λ j n h. ground (
                arith,
                lookup-insert ip j (suc (or_zero (lookup ip f.server.per_ip))) f.server.per_ip,
                a.present j n,
                h,
              );
            })
    ]

pub finish-Admits :
    {most each : ℕ} → (f : Flight) (i : ℕ) → Admits most each f → Admits most each (finish f i)
unfolding finish
finish-Admits f i a = elim (Option-cases (nth i f.handshakes)) [
  | inl e ↦ rw (e, finish) a
  | inr (ip, e) ↦
      let (sem, max, per) = drop_ip_frame f.server ip in
      let shorter = remove_at-length i f.handshakes ip e in
      rw (e, finish)
        (record {
          slots = sem ∙ a.slots ∙ omega (arith, shorter);
          bounded = rw (sem, max) a.bounded;
          counts = λ j. ground (
            arith,
            drop_ip-counts f.server ip j,
            remove_at-count i f.handshakes ip j e,
            a.counts ip,
            a.counts j,
            bytes_iff ip j,
          );
          per_ip = λ j. rw per (ground (arith, remove_at-count i f.handshakes ip j e, a.per_ip j));
          pending_limit = max ∙ a.pending_limit;
          ip_limit = per ∙ a.ip_limit;
          present = λ j n h. drop_ip-present f.server ip j n (a.present j) h;
        })
]

pub Accepting-cases :
    (x : Accepting) → (x ≡ waiting) ⊎ (((ip : Bytes) × (x ≡ holding ip)) ⊎ (x ≡ refusing))
Accepting-cases waiting = inl refl
Accepting-cases (holding ip) = inr (inl (ip, refl))
Accepting-cases refusing = inr (inr refl)

pub give_back-Admits :
    {most each : ℕ}
    → (f : Flight) → f.accepting ≡ refusing
    → Admits most each f
    → Admits most each (record f { server = give_slot f.server; accepting = waiting })
unfolding give_slot
give_back-Admits f at a = record {
  slots = ground (arith, a.slots, ap held at);
  bounded = ground (arith, a.bounded);
  pending_limit = a.pending_limit;
  ip_limit = a.ip_limit;
  counts = a.counts;
  per_ip = a.per_ip;
  present = a.present;
}

pub leave-Admits :
    {most each : ℕ}
    → (f : Flight) (n : ℕ) → f.leaving ≡ suc n
    → Admits most each f
    → Admits most each (record f { server = give_slot f.server; leaving = n })
unfolding give_slot
leave-Admits f n at a = record {
  slots = ground (arith, a.slots, at);
  bounded = ground (arith, a.bounded);
  pending_limit = a.pending_limit;
  ip_limit = a.ip_limit;
  counts = a.counts;
  per_ip = a.per_ip;
  present = a.present;
}

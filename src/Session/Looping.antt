-- ===== src/Session/Looping.antt =====
-- The allocation loop of `allocInnerLocked`: it puts back what it skipped, and always ends.
use gremlind.Prelude.{
  ℕ, zero, suc, ◌+◌, ◌≤◌, ◌<◌, ◌≡◌, refl, sym, ap, subst, ◌∙◌, ◌⊎◌, inl, inr, Bool, true, false,
  ◌||◌, List, [], ◌∷◌, ◌++◌, Result, ok, err, arith, Bool-cases, dec_lt,
}
use gremlind.Prelude.Maps.{has}
use gremlind.Net.{Addr, addr_eq, addr_eqb_iff}
use gremlind.Net.Blocks.{size, size-pos, host}
use gremlind.Pool.{Pool, allocate, taken}
use gremlind.Pool.Scan.{AllTaken}
use gremlind.Pool.Allocation.{Claims, Allocates, granted, refused, allocate-Allocates}
use gremlind.Pool.History.{IsSound, Claims-IsSound}
use gremlind.Session.Leases.{AllocError, exhausted, release_all, alloc_loop}
use gremlind.Session.Holding.{
  SamePool, Adds, member, release_all_used, release_all-IsSound, release_all_frame, member-append,
}

-- The loop's state: the skipped addresses on top of the pool that it started from.
record Held (available : Addr → Bool) (p q : Pool) (s : List Addr) : Type 0 where
  sound : IsSound q
  prefix : q.prefix ≡ p.prefix
  reserved : q.reserved ≡ p.reserved
  pinned : q.pinned ≡ p.pinned
  used : (b : Addr) → has b q.used ≡ (member b s || has b p.used)
  skipped : (b : Addr) → member b s ≡ true → (has b p.used ≡ false) × (available b ≡ false)

-- What the loop returns.
pub data Loops (available : Addr → Bool) (p : Pool) (r : Pool × Result AllocError Addr)
    : Type 0 where
  got :
      (a : Addr)
      → r.1 ≡ ok a
      → available a ≡ true
      → has a p.pinned ≡ false
      → Adds p r.0 a
      → Loops available p r
  nothing :
      r.1 ≡ err exhausted
      → ((k : ℕ)
          → 1 ≤ k
          → k < size p.prefix
          → (taken p (host p.prefix k) ≡ true) ⊎ (available (host p.prefix k) ≡ false))
      → SamePool p r.0
      → Loops available p r

module _ (available : Addr → Bool) (p : Pool) where
  put_back : (q : Pool) (s : List Addr) → Held available p q s → SamePool p (release_all s q)
  put_back q s h =
      let (x, r, n) = release_all_frame s q in
      record {
        sound = release_all-IsSound s q h.sound;
        prefix = x ∙ h.prefix;
        reserved = r ∙ h.reserved;
        pinned = n ∙ h.pinned;
        used = λ b. ground (arith, release_all_used s q b, h.used b, h.skipped b);
      }

  put_back_but :
      (q q' : Pool) (s : List Addr) (a : Addr)
      → Held available p q s
      → Claims q q' a
      → Adds p (release_all s q') a
  put_back_but q q' s a h c =
      let (x, r, n) = release_all_frame s q' in
      record {
        sound = release_all-IsSound s q' (Claims-IsSound q q' a h.sound c);
        prefix = x ∙ c.prefix ∙ h.prefix;
        reserved = r ∙ c.reserved ∙ h.reserved;
        pinned = n ∙ c.pinned ∙ h.pinned;
        fresh = ground (arith, h.used a, c.fresh);
        used = λ b. ground (
          arith,
          release_all_used s q' b,
          c.now_used b,
          h.used b,
          h.skipped b,
          addr_eqb_iff a b,
          h.used a,
          c.fresh,
        );
      }

  skip_one :
      (q q' : Pool) (s : List Addr) (a : Addr)
      → Held available p q s
      → Claims q q' a
      → available a ≡ false
      → Held available p q' (s ++ a ∷ [])
  skip_one q q' s a h c no_use = record {
    sound = Claims-IsSound q q' a h.sound c;
    prefix = c.prefix ∙ h.prefix;
    reserved = c.reserved ∙ h.reserved;
    pinned = c.pinned ∙ h.pinned;
    used = λ b. ground (arith, c.now_used b, h.used b, member-append b a s);
    skipped = λ b m. on b (Bool-cases (member b s)) m;
  }
    where
      on :
          (b : Addr)
          → (member b s ≡ true) ⊎ (member b s ≡ false)
          → member b (s ++ a ∷ []) ≡ true
          → (has b p.used ≡ false) × (available b ≡ false)
      on b (inl old) m = h.skipped b old
      on b (inr new) m =
          let same : a ≡ b = (addr_eqb_iff a b).0 (ground (arith, member-append b a s)) in
          rw (← same) (ground (arith, h.used a, c.fresh), no_use)

  -- What is taken stays taken, and so is what was claimed.
  taken-Claims :
      (q q' : Pool) (a b : Addr) → Claims q q' a → (taken q b ≡ true) ⊎ (b ≡ a) → taken q' b ≡ true
  unfolding taken
  taken-Claims q q' a b c (inl t) = rw (c.reserved, c.pinned, c.now_used b) (ground arith)
  taken-Claims q q' a b c (inr e) =
      rw (c.reserved, c.pinned, c.now_used b, e, (addr_eqb_iff a a).1 refl) (ground arith)

  AllTaken-Claims :
      (q q' : Pool) (j : ℕ) → Claims q q' (host q.prefix j) → AllTaken q 1 j → AllTaken q' 1 (suc j)
  AllTaken-Claims q q' j c all k lo hi =
      subst (λ x. taken q' (host x k) ≡ true) (sym c.prefix)
        (taken-Claims q q' (host q.prefix j) (host q.prefix k) c (elim (dec_lt k j) [
          | yes before ↦ inl (all k lo before)
          | no at ↦ inr (ap (host q.prefix) (omega arith))
        ]))

  not-taken : (q q' : Pool) (a : Addr) → Claims q q' a → has a q.pinned ≡ false → taken q a ≡ false
  unfolding taken
  not-taken q q' a c u = rw (c.unreserved, u, c.fresh)

  taken-Held :
      (q : Pool) (s : List Addr) (b : Addr)
      → Held available p q s
      → taken q b ≡ true
      → (taken p b ≡ true) ⊎ (available b ≡ false)
  unfolding taken
  taken-Held q s b h t = elim (Bool-cases (member b s)) [
    | inl m ↦ inr (h.skipped b m).1
    | inr n ↦ inl (rw (h.reserved, h.pinned, h.used b, n) at t)
  ]

  -- The induction hypothesis for the rounds that are left.
  Rounds : ℕ → Type 0
  Rounds fuel =
      (i : ℕ) (q : Pool) (s : List Addr)
      → Held available p q s
      → i ≤ size q.prefix
      → AllTaken q 1 i
      → size q.prefix < i + fuel
      → Loops available p (alloc_loop fuel available q s)

  -- A free address does not stand among the taken ones.
  beyond : (q : Pool) (i j : ℕ) → AllTaken q 1 i → 1 ≤ j → taken q (host q.prefix j) ≡ false → i ≤ j
  beyond q i j all lo free = elim (dec_lt j i) [
    | yes before ↦ cc (all j lo before)
    | no at ↦ omega arith
  ]

  loop_step :
      (fuel i : ℕ) (q : Pool) (s : List Addr)
      → Held available p q s
      → AllTaken q 1 i
      → size q.prefix < i + suc fuel
      → Rounds fuel
      → Allocates q (allocate q)
      → Loops available p (alloc_loop (suc fuel) available q s)
  unfolding alloc_loop Rounds
  loop_step fuel i q s h all enough ih (granted j q' lo hi e c unpinned every) =
      let a = host q.prefix j in
      rw (e, alloc_loop)
        (elim (Bool-cases (available a)) [
          | inl good ↦
              rw good (got a refl good (rw h.pinned at unpinned) (put_back_but q q' s a h c))
          | inr bad ↦ rw bad (
              ih (suc j) q' (s ++ a ∷ []) (skip_one q q' s a h c bad)
                (subst (λ x. suc j ≤ size x) (sym c.prefix) hi) (AllTaken-Claims q q' j c every)
                (subst (λ x. size x < suc j + fuel) (sym c.prefix)
                  (omega (arith, beyond q i j all lo (not-taken q q' a c unpinned)))))
        ])
  loop_step fuel i q s h all enough ih (refused e every) =
      rw (e, alloc_loop)
        (nothing refl
          (λ k lo hi.
            subst (λ x. (taken p (host x k) ≡ true) ⊎ (available (host x k) ≡ false)) h.prefix
              (taken-Held q s (host q.prefix k) h
                (every k lo (subst (λ x. k < size x) (sym h.prefix) hi))))
          (put_back q s h))

  loop_from : (fuel : ℕ) → Rounds fuel
  unfolding Rounds
  loop_from zero i q s h le all enough = absurd (omega arith)
  loop_from (suc fuel) i q s h le all enough =
      loop_step fuel i q s h all enough (loop_from fuel) (allocate-Allocates q h.sound.block)

  -- From a sound pool the loop of `allocInnerLocked` ends. It takes an address that belongs to no
  -- other client and puts every address that it skipped back; or it changes nothing, and then each
  -- address behind the network address is taken or belongs to another client.
  pub alloc_loop-Loops : IsSound p → Loops available p (alloc_loop (size p.prefix) available p [])
  alloc_loop-Loops sound =
      unfold Rounds in
      loop_from (size p.prefix) 1 p []
        (record {
          sound = sound;
          prefix = refl;
          reserved = refl;
          pinned = refl;
          used = λ b. refl;
          skipped = λ b m. cc;
        })
        (size-pos p.prefix) (λ k lo hi. absurd (omega arith)) (omega arith)

-- ===== src/Health/Reconnecting.antt =====
-- When the health check asks for a reconnect.
use mathlib.Core.List.{append_assoc}
use gremlind.Prelude.{
  ℕ, zero, suc, ◌+◌, ◌≤◌, ◌≡◌, refl, sym, ap, subst, ◌∙◌, ◌↔◌, Bool, true, false, List, [], ◌∷◌,
  ◌++◌, inl, inr, arith, Bool-cases,
}
use gremlind.Prelude.Int.{pos, leb_ℤ, ◌≤ℤ◌}
use gremlind.Health.{
  HealthCheck, Action, log, run_script, reconnect, unknown, run_failure_actions, health_loop,
}

-- Failing rounds in a row.
abbrev pub failing : ℕ → List Bool
failing zero = []
failing (suc n) = true ∷ failing n

failing-append : (n : ℕ) (s : List Bool) → failing n ++ true ∷ s ≡ true ∷ failing n ++ s
failing-append zero s = refl
failing-append (suc n) s = ap (λ x. true ∷ x) (failing-append n s)

-- `reconnect` stands among the actions.
abbrev pub Reconnects : List Action → Type 0
Reconnects actions =
    (before : List Action) × (after : List Action) × (actions ≡ before ++ reconnect ∷ after)

-- The threshold was reached by failures in a row, and `reconnect` is one of the actions.
pub record Reached (h : HealthCheck) (rounds : List Bool) : Type 0 where
  pub before : List Bool
  pub after : List Bool
  pub row : ℕ
  pub failed : 1 ≤ row
  pub splits : rounds ≡ before ++ (failing row ++ after)
  pub threshold : h.failures ≤ℤ pos row
  pub wanted : Reconnects h.actions

behind : (a : Action) (s : List Action) → Reconnects s → Reconnects (a ∷ s)
behind a s (before, after, e) = (a ∷ before, after, ap (λ x. a ∷ x) e)

run_failure_actions-Reconnects :
    (actions : List Action) → run_failure_actions actions ≡ true → Reconnects actions
unfolding run_failure_actions
run_failure_actions-Reconnects [] e = cc
run_failure_actions-Reconnects (reconnect ∷ s) e = ([], s, refl)
run_failure_actions-Reconnects (log ∷ s) e = behind log s (run_failure_actions-Reconnects s e)
run_failure_actions-Reconnects (run_script ∷ s) e =
    behind run_script s (run_failure_actions-Reconnects s e)
run_failure_actions-Reconnects (unknown ∷ s) e =
    behind unknown s (run_failure_actions-Reconnects s e)

found_behind :
    (before after : List Action) → run_failure_actions (before ++ reconnect ∷ after) ≡ true
unfolding run_failure_actions
found_behind [] after = refl
found_behind (log ∷ s) after = found_behind s after
found_behind (run_script ∷ s) after = found_behind s after
found_behind (reconnect ∷ s) after = refl
found_behind (unknown ∷ s) after = found_behind s after

later :
    (h : HealthCheck) (first rounds : List Bool) → Reached h rounds → Reached h (first ++ rounds)
later h first rounds r = record {
  before = first ++ r.before;
  after = r.after;
  row = r.row;
  failed = r.failed;
  splits =
      ap (λ x. first ++ x) r.splits ∙ sym (append_assoc first r.before (failing r.row ++ r.after));
  threshold = r.threshold;
  wanted = r.wanted;
}

reconnects_from :
    (h : HealthCheck) (n : ℕ) (rounds : List Bool)
    → health_loop h n rounds ≡ true
    → Reached h (failing n ++ rounds)
unfolding health_loop
reconnects_from h n [] e = cc
reconnects_from h n (false ∷ rounds) e =
    later h (failing n) (false ∷ rounds)
      (later h (false ∷ []) rounds (reconnects_from h 0 rounds e))
reconnects_from h n (true ∷ rounds) e = elim (Bool-cases (leb_ℤ h.failures (pos (suc n)))) [
  | inr below ↦
      subst (Reached h) (sym (failing-append n rounds))
        (reconnects_from h (suc n) rounds (rw (below, health_loop) at e))
  | inl reached ↦ elim (Bool-cases (run_failure_actions h.actions)) [
    | inl wanted ↦ record {
      before = [];
      after = rounds;
      row = suc n;
      failed = omega arith;
      splits = failing-append n rounds;
      threshold = ground (arith, reached);
      wanted = run_failure_actions-Reconnects h.actions wanted;
    }
    | inr unwanted ↦ later h (failing n) (true ∷ rounds) (
        later h (true ∷ []) rounds
          (reconnects_from h 0 rounds (rw (reached, unwanted, health_loop) at e)))
  ]
]

module _ (h : HealthCheck) (asks : run_failure_actions h.actions ≡ true) (after : List Bool) where
  -- A row that completes the threshold, whatever was counted before it.
  row_reconnects :
      (row n : ℕ)
      → 1 ≤ row
      → h.failures ≤ℤ pos (n + row)
      → health_loop h n (failing row ++ after) ≡ true
  unfolding health_loop
  row_reconnects zero n some_failure enough = absurd (omega arith)
  row_reconnects (suc row) n some_failure enough =
      elim (Bool-cases (leb_ℤ h.failures (pos (suc n)))) [
        | inl reached ↦ rw (reached, asks) refl
        | inr below ↦
            rw below
              (row_reconnects row (suc n) (ground (arith, below, enough)) (omega (arith, enough)))
      ]

  -- What was counted before them does not stop the rounds behind from asking.
  reconnects_behind :
      (row : ℕ)
      → 1 ≤ row
      → h.failures ≤ℤ pos row
      → (before : List Bool) (n : ℕ) → health_loop h n (before ++ (failing row ++ after)) ≡ true
  unfolding health_loop
  reconnects_behind row some_failure enough [] n =
      row_reconnects row n some_failure (omega (arith, enough))
  reconnects_behind row some_failure enough (false ∷ before) n =
      reconnects_behind row some_failure enough before 0
  reconnects_behind row some_failure enough (true ∷ before) n =
      elim (Bool-cases (leb_ℤ h.failures (pos (suc n)))) [
        | inl reached ↦ rw (reached, asks) refl
        | inr below ↦ rw below (reconnects_behind row some_failure enough before (suc n))
      ]

-- The health check asks for a reconnect exactly if `reconnect` stands among its actions and the
-- rounds contain as many failures in a row as the configured threshold, and one at least. However
-- many failures there are, it asks for none without that action.
pub health_loop-Reached :
    (h : HealthCheck) (rounds : List Bool) → (health_loop h 0 rounds ≡ true) ↔ Reached h rounds
health_loop-Reached h rounds = (reconnects_from h 0 rounds, asked)
  where
    asked : Reached h rounds → health_loop h 0 rounds ≡ true
    asked r =
        let (before, after, e) = r.wanted in
        let asks = ap run_failure_actions e ∙ found_behind before after in
        ap (health_loop h 0) r.splits
        ∙ reconnects_behind h asks r.after r.row r.failed r.threshold r.before 0

-- ===== src/Outcome/Classes.antt =====
-- The classes of outcomes (`was_attempted`, `is_error`, `is_success` and `is_retryable` of
-- outcome.rs) and how they relate.
use ozint.Base.{
  ◌+◌, true, false, ◌||◌, ◌&&◌, ◌≡◌, refl, List, [], ◌∷◌, arith, filter, count, length,
}
use ozint.Outcome.{
  ToolOutcome, ToolReport, ok_with_results, is_retryable, was_attempted, is_error, is_success,
}

-- An outcome was attempted exactly when it is an error or a success, and it is never both.
pub attempted_split :
    (o : ToolOutcome)
    → (was_attempted o ≡ (is_error o || is_success o)) × ((is_error o && is_success o) ≡ false)
unfolding was_attempted is_error is_success
attempted_split (ok_with_results n) = (refl, refl)
attempted_split _ = (refl, refl)

-- Nothing that succeeded is retried.
pub retryable_not_success : (o : ToolOutcome) → is_retryable o ≡ true → is_success o ≡ false
unfolding is_retryable is_success
retryable_not_success o h = ground arith

-- Among the attempted reports, the errors and the successes add up to all: the assertion that
-- `settle_kind` makes in debug builds.
pub errored-add-succeeded :
    (rs : List ToolReport)
    → let attempted = filter (λ r. was_attempted r.outcome) rs in
      count (λ r. is_error r.outcome) attempted + count (λ r. is_success r.outcome) attempted
      ≡ length attempted
errored-add-succeeded [] = omega arith
errored-add-succeeded (r ∷ rs) = ground (arith, attempted_split r.outcome, errored-add-succeeded rs)

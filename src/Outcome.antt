-- ===== src/Outcome.antt =====
-- crates/ozint/src/outcome.rs: what one tool invocation came to, its report, and the verdict that
-- a layer's reports fold into. Instants are milliseconds since the epoch.
pub mod Classes
pub mod Settle
use ozint.Base.{
  ℕ, String, Bool, true, false, not, ◌||◌, Option, none, some, List, [], ◌∷◌, nat_eq, leb, ltb,
  if◌then◌else◌, filter, count, length,
}

pub data ToolOutcome : Type 0 where
  ok_with_results : (count : ℕ) → ToolOutcome
  ok_empty : ToolOutcome
  skipped_no_key : (env_var : String) → ToolOutcome
  skipped_gated_unarmed : (env_var : String) → ToolOutcome
  skipped_phase_predicate : (reason : String) → ToolOutcome
  skipped_missing_input : (input reason : String) → ToolOutcome
  skipped_circuit_open : (retry_after : Option ℕ) → ToolOutcome
  rate_limited_dropped : ToolOutcome
  timeout : (after_ms : ℕ) → ToolOutcome
  http_error : (status : ℕ) (message : Option String) → ToolOutcome
  parse_error : (message : String) → ToolOutcome
  forbidden : (message : Option String) → ToolOutcome
  cancelled : ToolOutcome
  skipped_not_applicable : (reason : String) → ToolOutcome

unfoldable pub is_retryable : ToolOutcome → Bool
is_retryable (skipped_circuit_open retry_after) = true
is_retryable rate_limited_dropped = true
is_retryable (timeout after_ms) = true
is_retryable (http_error status message) = true
is_retryable (parse_error message) = true
is_retryable cancelled = true
is_retryable _ = false

unfoldable pub was_attempted : ToolOutcome → Bool
was_attempted (skipped_no_key env_var) = false
was_attempted (skipped_gated_unarmed env_var) = false
was_attempted (skipped_phase_predicate reason) = false
was_attempted (skipped_missing_input input reason) = false
was_attempted (skipped_circuit_open retry_after) = false
was_attempted cancelled = false
was_attempted (skipped_not_applicable reason) = false
was_attempted _ = true

unfoldable pub is_error : ToolOutcome → Bool
is_error rate_limited_dropped = true
is_error (timeout after_ms) = true
is_error (http_error status message) = true
is_error (parse_error message) = true
is_error (forbidden message) = true
is_error _ = false

unfoldable pub is_success : ToolOutcome → Bool
is_success (ok_with_results n) = true
is_success ok_empty = true
is_success _ = false

pub record ToolReport : Type 0 where
  pub tool_id : String
  pub label : String
  pub outcome : ToolOutcome
  pub elapsed_ms : ℕ
  pub results : ℕ
  pub gated : Bool
  pub method : String

unfoldable pub results_of : ToolOutcome → ℕ
results_of (ok_with_results n) = n
results_of _ = 0

-- `ToolReport::new`.
unfoldable pub report_new : String → String → ToolOutcome → ℕ → Bool → String → ToolReport
unfolding results_of
report_new tool_id label outcome elapsed_ms gated method = record {
  tool_id = tool_id;
  label = label;
  outcome = outcome;
  elapsed_ms = elapsed_ms;
  results = results_of outcome;
  gated = gated;
  method = method;
}

pub data SettleKind : Type 0 where
  settled empty degraded failed aborted : SettleKind

unfoldable pub settle_kind : List ToolReport → ℕ → Bool → SettleKind
settle_kind reports new_children is_aborted =
    let attempted = filter (λ r. was_attempted r.outcome) reports in
    let errored = count (λ r. is_error r.outcome) attempted in
    if is_aborted
    then aborted
    else if nat_eq (length attempted) 0
    then failed
    else if nat_eq errored (length attempted)
    then failed
    else if ltb 0 errored
    then degraded
    else if ltb 0 new_children
    then settled
    else empty

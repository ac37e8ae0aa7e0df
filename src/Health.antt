-- ===== src/Health.antt =====
-- crates/ozint/src/health.rs: a circuit breaker for each tool id. Instants are milliseconds since
-- the epoch, and each call is given the instant that the clock read. A panic is `none`.
pub mod Invariant
pub mod Trips
pub mod Probes
use ozint.Base.{
  ℕ, ◌+◌, ◌*◌, ◌%◌, ◌^◌, String, Bool, true, false, Option, none, some, List, [], ◌∷◌, leb, ltb,
  min, if◌then◌else◌, Map, get, insert, unwrap_or, string_eq,
}
use ozint.Outcome.{ToolOutcome, timeout, parse_error, forbidden, http_error, skipped_circuit_open}

unfoldable pub is_fault : ToolOutcome → Bool
is_fault (timeout after_ms) = true
is_fault (parse_error message) = true
is_fault (forbidden message) = true
is_fault (http_error status message) = leb 500 status
is_fault _ = false

abbrev pub failure_threshold : ℕ
failure_threshold = 3

abbrev pub initial_backoff_secs : ℕ
initial_backoff_secs = 30

abbrev pub max_backoff_secs : ℕ
max_backoff_secs = 3600

pub data State : Type 0 where
  closed open_ half_open : State

pub record Breaker : Type 0 where
  pub state : State
  pub consecutive_failures : ℕ  -- u32
  pub backoff_secs : ℕ
  pub opens_until : Option ℕ
  pub probe_in_flight : Bool

unfoldable pub breaker_default : Breaker
breaker_default = record {
  state = closed;
  consecutive_failures = 0;
  backoff_secs = initial_backoff_secs;
  opens_until = none;
  probe_in_flight = false;
}

-- The `Open` arm of `check`, past the `expect`.
check_open : ℕ → Option ℕ → Breaker → Option (Option ToolOutcome × Breaker)
check_open now none b = none
check_open now (some until) b = some (
    if ltb now until
    then (some (skipped_circuit_open (some until)), b)
    else (none, record b { state = half_open; probe_in_flight = true }))

check_state : State → ℕ → Breaker → Option (Option ToolOutcome × Breaker)
unfolding check_open
check_state closed now b = some (none, b)
check_state open_ now b = check_open now b.opens_until b
check_state half_open now b = some (
    if b.probe_in_flight
    then (some (skipped_circuit_open b.opens_until), b)
    else (none, record b { probe_in_flight = true }))

-- `check` on the breaker of one tool.
unfoldable pub check_breaker : ℕ → Breaker → Option (Option ToolOutcome × Breaker)
unfolding check_state
check_breaker now b = check_state b.state now b

abbrev trip : ℕ → Breaker → Breaker
trip now b = record b { state = open_; opens_until = some (now + b.backoff_secs * 1000) }

record_state : State → ℕ → Bool → Breaker → Breaker
unfolding breaker_default
record_state closed now fault b =
    let counted = record b { consecutive_failures = (b.consecutive_failures + 1) % 2 ^ 32 } in
    if fault
    then (if leb failure_threshold counted.consecutive_failures then trip now counted else counted)
    else record b { consecutive_failures = 0 }
record_state half_open now fault b =
    let waited = record b {
      probe_in_flight = false;
      backoff_secs = min (b.backoff_secs * 2) max_backoff_secs;
    } in
    if fault then trip now waited else breaker_default
record_state open_ now fault b = b

-- `record` on the breaker of one tool.
unfoldable pub record_breaker : ℕ → ToolOutcome → Breaker → Breaker
unfolding record_state
record_breaker now outcome b = record_state b.state now (is_fault outcome) b

abbrev pub ToolHealth : Type 0
ToolHealth = Map String Breaker

-- `breakers.entry(tool_id).or_default()`.
unfoldable pub entry : String → ToolHealth → Breaker
entry tool_id m = unwrap_or breaker_default (get tool_id m)

unfoldable pub check : ℕ → String → ToolHealth → Option (Option ToolOutcome × ToolHealth)
check now tool_id m = elim (check_breaker now (entry tool_id m)) [
  | none ↦ none
  | some (skip, b) ↦ some (skip, insert tool_id b m)
]

unfoldable pub record_outcome : ℕ → String → ToolOutcome → ToolHealth → ToolHealth
record_outcome now tool_id outcome m =
    insert tool_id (record_breaker now outcome (entry tool_id m)) m

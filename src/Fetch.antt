-- ===== src/Fetch.antt =====
-- crates/ozint/src/fetch.rs and `fold_fetch_failure` of crates/ozint/src/sources/mod.rs: what a request
-- comes to, and how a failed one is reported. The response is a parameter.
pub mod Attempts
pub mod Retries
use ozint.Base.{ℕ, ◌-◌, ◌^◌, String, ltb, if◌then◌else◌, Option, none, some, [], ◌∷◌, concat}
use ozint.Base.Text.{decimal}
use ozint.Outcome.{ToolOutcome}

pub data OzOutcome (R : Type 0) : Type 0 where
  ok : R → OzOutcome R
  blocked : (url : String) → OzOutcome R
  cancelled : OzOutcome R
  timeout : (attempts elapsed_ms : ℕ) → OzOutcome R
  too_large : (cap_bytes : ℕ) → OzOutcome R
  http_error : (status : ℕ) (body_snippet : Option String) → OzOutcome R
  transport_error : (message : String) → OzOutcome R
  parse_error : (content_type message : String) → OzOutcome R

-- `u128` to `u64`, with the largest value where it does not fit.
clamp_u64 : ℕ → ℕ
clamp_u64 n = if ltb n (2 ^ 64) then n else 2 ^ 64 - 1

unfoldable pub fold_fetch_failure : {R : Type 0} → OzOutcome R → Option ToolOutcome
unfolding clamp_u64
fold_fetch_failure (OzOutcome.ok response) = none
fold_fetch_failure OzOutcome.cancelled = none
fold_fetch_failure (OzOutcome.blocked url) =
    some (ToolOutcome.forbidden (some (concat ("blocked by SSRF guard: " ∷ url ∷ []))))
fold_fetch_failure (OzOutcome.timeout attempts elapsed_ms) =
    some (ToolOutcome.timeout (clamp_u64 elapsed_ms))
fold_fetch_failure (OzOutcome.too_large cap_bytes) = some (
    ToolOutcome.parse_error
      (concat ("response exceeded the " ∷ decimal cap_bytes ∷ " byte cap" ∷ [])))
fold_fetch_failure (OzOutcome.http_error status body_snippet) =
    some (ToolOutcome.http_error status body_snippet)
fold_fetch_failure (OzOutcome.transport_error message) =
    some (ToolOutcome.http_error 0 (some message))
fold_fetch_failure (OzOutcome.parse_error content_type message) =
    some (ToolOutcome.parse_error (concat (content_type ∷ ": " ∷ message ∷ [])))

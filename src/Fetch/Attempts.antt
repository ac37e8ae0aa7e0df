-- ===== src/Fetch/Attempts.antt =====
-- The retry loop and the capped body (`fetch_raw` and `read_capped_body` of crates/ozint/src/fetch.rs).
-- What the network, the cancel signal and the clock answer is a function of the attempt, from 1. A body
-- is the sequence of what its stream gives, and a byte is a number.
use ozint.Base.{
  ℕ, zero, suc, ◌+◌, ◌-◌, ◌*◌, ◌^◌, min, String, Bool, ltb, leb, nat_eq, ◌&&◌, ◌||◌, if◌then◌else◌,
  Option, none, some, ◌⊎◌, inl, inr, List, [], ◌∷◌, ◌++◌, length,
}
use ozint.Fetch.{OzOutcome}

abbrev pub max_body_bytes : ℕ
max_body_bytes = 8388608

unfoldable pub is_transient_status : ℕ → Bool
is_transient_status status = nat_eq status 429 || (leb 500 status && leb status 599)

-- 250 ms, doubled for each retry before, and 4 s at most.
unfoldable pub backoff_delay : ℕ → ℕ
backoff_delay attempt = min (min (250 * 2 ^ min (attempt - 1) 16) (2 ^ 64 - 1)) 4000

unfoldable pub would_exceed_cap : ℕ → ℕ → ℕ → Bool
would_exceed_cap accumulated incoming cap = ltb cap (min (accumulated + incoming) (2 ^ 64 - 1))

-- What the stream of a body gives next, where it does not end.
pub data Chunk : Type 0 where
  chunk : List ℕ → Chunk
  stream_failed : (message : String) → Chunk
  stream_cancelled : Chunk

pub data CapReadError : Type 0 where
  too_large : CapReadError
  cancelled : CapReadError
  transport : (message : String) → CapReadError

unfoldable pub read_capped_body : ℕ → List Chunk → List ℕ → CapReadError ⊎ List ℕ
unfolding would_exceed_cap
read_capped_body cap [] buf = inr buf
read_capped_body cap (chunk bytes ∷ stream) buf =
    let rest = read_capped_body cap stream (buf ++ bytes) in
    if would_exceed_cap (length buf) (length bytes) cap then inl CapReadError.too_large else rest
read_capped_body cap (stream_failed message ∷ stream) buf = inl (CapReadError.transport message)
read_capped_body cap (stream_cancelled ∷ stream) buf = inl CapReadError.cancelled

pub record OzBytes : Type 0 where
  pub status : ℕ
  pub url : String
  pub content_type : String
  pub bytes : List ℕ
  pub elapsed_ms : ℕ
  pub attempts : ℕ

pub data LastFailure : Type 0 where
  timeout : LastFailure
  failed_status : ℕ → Option String → LastFailure
  transport : (message : String) → LastFailure

-- What `send` comes to: the snippet is of the text of a response that is no success.
pub data Sent : Type 0 where
  send_cancelled : Sent
  responded :
      (status : ℕ) (content_type : String) (body : List Chunk) (snippet : Option String) → Sent
  send_timeout : Sent
  send_failed : (message : String) → Sent

pub record Network : Type 0 where
  pub is_cancelled : ℕ → Bool
  pub send : ℕ → Sent
  pub elapsed_ms : ℕ → ℕ

-- The outcomes here hold no response.
abbrev pub Raw : Type 0
Raw = OzOutcome Unit ⊎ OzBytes

-- What one attempt comes to: the answer of the call, or a failure that may be tried again.
pub data Attempt : Type 0 where
  settled : Raw → Attempt
  failed : LastFailure → Attempt

unfoldable pub after_body : OzBytes → CapReadError ⊎ List ℕ → Attempt
after_body response (inr bytes) = settled (inr (record response { bytes = bytes }))
after_body response (inl CapReadError.too_large) =
    settled (inl (OzOutcome.too_large max_body_bytes))
after_body response (inl CapReadError.cancelled) = settled (inl OzOutcome.cancelled)
after_body response (inl (CapReadError.transport message)) = failed (LastFailure.transport message)

module _ (url : String) where
  unfoldable pub after_send : ℕ → ℕ → Sent → Attempt
  unfolding after_body read_capped_body is_transient_status
  after_send attempt elapsed send_cancelled = settled (inl OzOutcome.cancelled)
  after_send attempt elapsed send_timeout = failed LastFailure.timeout
  after_send attempt elapsed (send_failed message) = failed (LastFailure.transport message)
  after_send attempt elapsed (responded status content_type body snippet) =
      let response : OzBytes = record {
        status = status;
        url = url;
        content_type = content_type;
        bytes = [];
        elapsed_ms = elapsed;
        attempts = attempt;
      } in
      if leb 200 status && ltb status 300
      then after_body response (read_capped_body max_body_bytes body [])
      else if is_transient_status status
      then failed (LastFailure.failed_status status snippet)
      else settled (inl (OzOutcome.http_error status snippet))

-- Once the retries are used up.
unfoldable pub give_up : ℕ → ℕ → LastFailure → OzOutcome Unit
give_up attempt elapsed LastFailure.timeout = OzOutcome.timeout attempt elapsed
give_up attempt elapsed (LastFailure.failed_status s snippet) = OzOutcome.http_error s snippet
give_up attempt elapsed (LastFailure.transport message) = OzOutcome.transport_error message

-- The answer, with the number of attempts begun and the time slept between them.
pub record Fetch : Type 0 where
  pub answer : Raw
  pub begun : ℕ
  pub slept : ℕ

unfoldable pub after_sleep : ℕ → Option Fetch → Option Fetch
after_sleep delay none = none
after_sleep delay (some fetch) = some (record fetch { slept = delay + fetch.slept })

module _ (network : Network) (url : String) where
  unfoldable pub attempt_at : ℕ → Attempt
  unfolding after_send
  attempt_at attempt =
      if network.is_cancelled attempt
      then settled (inl OzOutcome.cancelled)
      else after_send url attempt (network.elapsed_ms attempt) (network.send attempt)

module _ (network : Network) (url : String) (max_retries : ℕ) where
  -- `later` is the rest of the loop.
  unfoldable pub after_attempt : ℕ → Attempt → Option Fetch → Option Fetch
  unfolding give_up after_sleep backoff_delay
  after_attempt attempt (settled answer) later =
      some (record { answer = answer; begun = attempt; slept = 0 })
  after_attempt attempt (failed failure) later =
      if ltb max_retries attempt
      then some (record {
        answer = inl (give_up attempt (network.elapsed_ms attempt) failure);
        begun = attempt;
        slept = 0;
      })
      else after_sleep (backoff_delay attempt) later

  -- The loop, from the attempt it begins with: one unit of fuel for each attempt.
  unfoldable pub attempts_from : ℕ → ℕ → Option Fetch
  unfolding attempt_at after_attempt
  attempts_from zero attempt = none
  attempts_from (suc fuel) attempt =
      after_attempt attempt (attempt_at network url attempt) (attempts_from fuel (suc attempt))

-- `screened` is what the guard makes of the link.
unfoldable pub fetch_raw : Network → String → ℕ → Option String → Option Fetch
unfolding attempts_from
fetch_raw network raw max_retries none =
    some (record { answer = inl (OzOutcome.blocked raw); begun = 0; slept = 0 })
fetch_raw network raw max_retries (some url) =
    attempts_from network url max_retries (suc max_retries) 1

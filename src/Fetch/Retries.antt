-- ===== src/Fetch/Retries.antt =====
-- How often a request is tried, and what of a body is read (crates/ozint/src/fetch.rs).
use ozint.Base.{
  ℕ, zero, suc, ◌+◌, ◌-◌, ◌*◌, ◌^◌, ◌≤◌, ◌<◌, String, Bool, true, false, ◌≡◌, refl, sym, ap, ◌∙◌,
  map, arith, if-cases, Option, none, some, ◌⊎◌, inl, inr, List, [], ◌∷◌, ◌++◌, length,
  length-append, append-nil, append_assoc,
}
use ozint.Fetch.Attempts.{
  would_exceed_cap, Chunk, CapReadError, read_capped_body, Network, Raw, Attempt, give_up, Fetch,
  attempt_at,
}

abbrev pub bytes_of : List (List ℕ) → List ℕ
bytes_of [] = []
bytes_of (bytes ∷ taken) = bytes ++ bytes_of taken

abbrev pub chunks : List (List ℕ) → List Chunk
chunks taken = map Chunk.chunk taken

-- What each answer says of the stream. A body: the stream gave these chunks and ended, and they are the
-- body, after what was there. An error: the stream gave these chunks first, which fit, and then what the
-- error names. The sizes are exact: too large is what the next chunk makes it.
abbrev pub Reads : ℕ → List ℕ → List Chunk → CapReadError ⊎ List ℕ → Type 0
Reads cap buf stream (inr body) =
    (taken : List (List ℕ)) × (stream ≡ chunks taken)
    × (body ≡ buf ++ bytes_of taken)
    × (length body ≤ cap)
Reads cap buf stream (inl CapReadError.too_large) =
    (taken : List (List ℕ)) × (next : List ℕ) × (rest : List Chunk) × (stream
      ≡ chunks taken ++ (Chunk.chunk next ∷ rest))
    × (length (buf ++ bytes_of taken) ≤ cap)
    × (cap < length (buf ++ bytes_of taken) + length next)
Reads cap buf stream (inl (CapReadError.transport message)) =
    (taken : List (List ℕ)) × (rest : List Chunk) × (stream
      ≡ chunks taken ++ (Chunk.stream_failed message ∷ rest))
    × (length (buf ++ bytes_of taken) ≤ cap)
Reads cap buf stream (inl CapReadError.cancelled) =
    (taken : List (List ℕ)) × (rest : List Chunk) × (stream
      ≡ chunks taken ++ (Chunk.stream_cancelled ∷ rest))
    × (length (buf ++ bytes_of taken) ≤ cap)

within :
    (cap : ℕ) (buf bytes : List ℕ)
    → cap < 2 ^ 64 - 1
    → would_exceed_cap (length buf) (length bytes) cap ≡ false
    → length (buf ++ bytes) ≤ cap
unfolding would_exceed_cap
within cap buf bytes small e = ground (arith, small, e, length-append buf bytes)

over :
    (cap : ℕ) (buf bytes : List ℕ)
    → would_exceed_cap (length buf) (length bytes) cap ≡ true
    → cap < length buf + length bytes
unfolding would_exceed_cap
over cap buf bytes e = ground (arith, e)

-- A chunk that was taken comes before those taken after it.
Reads-chunk :
    (cap : ℕ) (buf bytes : List ℕ) (stream : List Chunk) (result : CapReadError ⊎ List ℕ)
    → Reads cap (buf ++ bytes) stream result
    → Reads cap buf (Chunk.chunk bytes ∷ stream) result
Reads-chunk cap buf bytes stream (inr body) (taken, e, whole, h) =
    (bytes ∷ taken, ap (λ more. Chunk.chunk bytes ∷ more) e, whole ∙ append_assoc buf bytes _, h)
Reads-chunk cap buf bytes stream (inl CapReadError.too_large) (taken, next, rest, e, h, more) = (
  bytes ∷ taken,
  next,
  rest,
  ap (λ more. Chunk.chunk bytes ∷ more) e,
  rw (sym (append_assoc buf bytes (bytes_of taken))) h,
  rw (sym (append_assoc buf bytes (bytes_of taken))) more,
)
Reads-chunk cap buf bytes stream (inl (CapReadError.transport message)) (taken, rest, e, h) = (
  bytes ∷ taken,
  rest,
  ap (λ more. Chunk.chunk bytes ∷ more) e,
  rw (sym (append_assoc buf bytes (bytes_of taken))) h,
)
Reads-chunk cap buf bytes stream (inl CapReadError.cancelled) (taken, rest, e, h) = (
  bytes ∷ taken,
  rest,
  ap (λ more. Chunk.chunk bytes ∷ more) e,
  rw (sym (append_assoc buf bytes (bytes_of taken))) h,
)

-- For a cap below the largest `u64` and a buffer within it: a body is answered only where the stream
-- gave chunks to its end, and is all of them, within the cap. A transport error and a cancellation are
-- answered only where the stream broke off with them after chunks that fit, and "too large" only where
-- the next chunk goes over the cap.
pub read_capped_body-Reads :
    (cap : ℕ) (stream : List Chunk) (buf : List ℕ)
    → cap < 2 ^ 64 - 1
    → length buf ≤ cap
    → Reads cap buf stream (read_capped_body cap stream buf)
unfolding read_capped_body
read_capped_body-Reads cap [] buf small h = ([], refl, sym (append-nil buf), h)
read_capped_body-Reads cap (Chunk.chunk bytes ∷ stream) buf small h =
    if-cases (Reads cap buf (Chunk.chunk bytes ∷ stream))
      (would_exceed_cap (length buf) (length bytes) cap)
      (λ e. (
        [],
        bytes,
        stream,
        refl,
        rw (append-nil buf) h,
        rw (append-nil buf) (over cap buf bytes e),
      ))
      (λ e.
        Reads-chunk cap buf bytes stream (read_capped_body cap stream (buf ++ bytes))
          (read_capped_body-Reads cap stream (buf ++ bytes) small (within cap buf bytes small e)))
read_capped_body-Reads cap (Chunk.stream_failed message ∷ stream) buf small h =
    ([], stream, refl, rw (append-nil buf) h)
read_capped_body-Reads cap (Chunk.stream_cancelled ∷ stream) buf small h =
    ([], stream, refl, rw (append-nil buf) h)

abbrev pub is_failed : Attempt → Bool
is_failed (Attempt.failed failure) = true
is_failed (Attempt.settled answer) = false

module _ (network : Network) (url : String) (max_retries : ℕ) where
  -- So many attempts, from this one, failed in a way that may be tried again.
  abbrev pub FailedFor : ℕ → ℕ → Type 0
  FailedFor zero attempt = Unit
  FailedFor (suc n) attempt =
      (is_failed (attempt_at network url attempt) ≡ true) × FailedFor n (suc attempt)

  abbrev pub answer_of : ℕ → Attempt → Raw
  answer_of attempt (Attempt.settled answer) = answer
  answer_of attempt (Attempt.failed failure) =
      inl (give_up attempt (network.elapsed_ms attempt) failure)

  -- A run that begins with this attempt: it ends with the first attempt that settles, or with the last
  -- that is allowed, and answers what that one says.
  abbrev pub Runs : ℕ → Option Fetch → Type 0
  Runs attempt none = (1 ≤ 0)
  Runs attempt (some fetch) =
      (attempt ≤ fetch.begun)
      × (fetch.begun ≤ suc max_retries)
      × FailedFor (fetch.begun - attempt) attempt
      × (fetch.answer ≡ answer_of fetch.begun (attempt_at network url fetch.begun))
      × ((is_failed (attempt_at network url fetch.begun) ≡ false) ⊎ (fetch.begun ≡ suc max_retries))
      × (fetch.slept ≤ (fetch.begun - attempt) * 4000)

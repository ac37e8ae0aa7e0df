-- ===== src/Health/Invariant.antt =====
-- What holds of a breaker between two calls, for any history of calls.
use ozint.Base.{
  ℕ, ◌≤◌, ◌<◌, true, false, ◌≡◌, refl, Option, none, some, List, [], ◌∷◌, arith, is_some, String,
  if◌then◌else◌, ◌==◌, string_eq, get, insert, get-insert, Bool-cases, inl, inr,
}
use ozint.Outcome.{ToolOutcome}
use ozint.Health.{
  closed, open_, half_open, Breaker, breaker_default, check_breaker, record_breaker, ToolHealth,
  entry, check, record_outcome,
}

pub record IsSound (b : Breaker) : Type 0 where
  pub closed_below : b.state ≡ closed → b.consecutive_failures < 3
  pub closed_fresh : b.state ≡ closed → b.backoff_secs ≡ 30
  pub open_until : b.state ≡ open_ → is_some b.opens_until ≡ true
  pub probing : b.state ≡ half_open → b.probe_in_flight ≡ true
  pub idle_closed : b.state ≡ closed → b.probe_in_flight ≡ false
  pub idle_open : b.state ≡ open_ → b.probe_in_flight ≡ false
  pub backoff_low : 30 ≤ b.backoff_secs
  pub backoff_high : b.backoff_secs ≤ 3600
  pub counted : b.consecutive_failures ≤ 3

pub default-IsSound : IsSound breaker_default
unfolding breaker_default
default-IsSound = ground arith

pub record-IsSound :
    (now : ℕ) (o : ToolOutcome) (b : Breaker) → IsSound b → IsSound (record_breaker now o b)
unfolding record_breaker
record-IsSound now o b h = ground arith

-- `check` returned, and left a breaker with the property.
abbrev pub Leaves : (Breaker → Type 0) → Option (Option ToolOutcome × Breaker) → Type 0
Leaves P none = ⊥
Leaves P (some (skip, b)) = P b

-- A sound breaker never panics in `check`, and stays sound.
pub check-IsSound : (now : ℕ) (b : Breaker) → IsSound b → Leaves IsSound (check_breaker now b)
unfolding check_breaker
check-IsSound now b h = ground arith

-- One call on the breaker of one tool; the guard of `check` is the caller's to heed.
pub data Call : Type 0 where
  checks : (now : ℕ) (tool_id : String) → Call
  records : (now : ℕ) (tool_id : String) (outcome : ToolOutcome) → Call

-- A history of calls on the shared table, from any caller and in any order.
unfoldable pub run : List Call → ToolHealth → Option ToolHealth
run [] m = some m
run (records now t o ∷ calls) m = run calls (record_outcome now t o m)
run (checks now t ∷ calls) m = elim (check now t m) [ none ↦ none | some (skip, m') ↦ run calls m' ]

abbrev pub AllSound : ToolHealth → Type 0
AllSound m = (t : String) → IsSound (entry t m)

pub entry-insert :
    (t u : String) (b : Breaker) (m : ToolHealth)
    → entry u (insert t b m) ≡ (if t == u then b else entry u m)
unfolding entry
entry-insert t u b m = ground (arith, get-insert t u b m)

pub insert-AllSound :
    (t : String) (b : Breaker) (m : ToolHealth) → IsSound b → AllSound m → AllSound (insert t b m)
insert-AllSound t b m h all u = elim (Bool-cases (t == u)) [
  | inl same ↦ rw (entry-insert t u b m) (rw same h)
  | inr other ↦ rw (entry-insert t u b m) (rw other (all u))
]

pub check_of_breaker :
    (now : ℕ) (t : String) (m : ToolHealth) {skip : Option ToolOutcome} {b : Breaker}
    → check_breaker now (entry t m) ≡ some (skip, b)
    → check now t m ≡ some (skip, insert t b m)
unfolding check
check_of_breaker now t m e = rw (e, check)

-- What a `check` that returned did to the table.
pub breaker_of_check :
    (now : ℕ) (t : String) (m : ToolHealth) {skip : Option ToolOutcome} {m' : ToolHealth}
    → check now t m ≡ some (skip, m')
    → (b : Breaker) × (check_breaker now (entry t m) ≡ some (skip, b)) × (m' ≡ insert t b m)
unfolding check
breaker_of_check now t m {skip} {m'} e = go (check_breaker now (entry t m)) refl
  where
    go :
        (r : Option (Option ToolOutcome × Breaker))
        → check_breaker now (entry t m) ≡ r
        → (b : Breaker) × (check_breaker now (entry t m) ≡ some (skip, b)) × (m' ≡ insert t b m)
    go none k = let gone = rw (k, check) at e in cc gone
    go (some (skip', b)) k =
        let same = check_of_breaker now t m k in (b, ground (arith, same), ground (arith, same))

pub check-AllSound :
    (now : ℕ) (t : String) (m : ToolHealth)
    → AllSound m
    → (skip : Option ToolOutcome) × (m' : ToolHealth) × (check now t m ≡ some (skip, m'))
      × AllSound m'
check-AllSound now t m h = go (check_breaker now (entry t m)) refl (check-IsSound now _ (h t))
  where
    go :
        (r : Option (Option ToolOutcome × Breaker))
        → check_breaker now (entry t m) ≡ r
        → Leaves IsSound r
        → (skip : Option ToolOutcome) × (m' : ToolHealth) × (check now t m ≡ some (skip, m'))
          × AllSound m'
    go none e k = absurd k
    go (some (skip, b)) e k =
        (skip, insert t b m, check_of_breaker now t m e, insert-AllSound t b m k h)

pub record-AllSound :
    (now : ℕ) (t : String) (o : ToolOutcome) (m : ToolHealth)
    → AllSound m
    → AllSound (record_outcome now t o m)
unfolding record_outcome
record-AllSound now t o m h =
    insert-AllSound t (record_breaker now o (entry t m)) m (record-IsSound now o _ (h t)) h

run-AllSound :
    (calls : List Call) (m : ToolHealth)
    → AllSound m
    → (m' : ToolHealth) × (run calls m ≡ some m') × AllSound m'
unfolding run
run-AllSound [] m h = (m, refl, h)
run-AllSound (records now t o ∷ calls) m h =
    run-AllSound calls (record_outcome now t o m) (record-AllSound now t o m h)
run-AllSound (checks now t ∷ calls) m h =
    let (skip, m', e, h') = check-AllSound now t m h in rw (e, run) (run-AllSound calls m' h')

pub nil-AllSound : AllSound []
nil-AllSound t = unfold entry get in default-IsSound

-- From the empty table, no history of checks and records makes `check` panic, and every breaker
-- keeps the invariant: in particular its failure count stays at most 3, so the `u32` never wraps.
pub history-AllSound : (calls : List Call) → (m : ToolHealth) × (run calls [] ≡ some m) × AllSound m
history-AllSound calls = run-AllSound calls [] nil-AllSound

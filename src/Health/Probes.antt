-- ===== src/Health/Probes.antt =====
-- The half-open state of health.rs: one probe at a time, and what an unrecorded probe leaves.
use ozint.Base.{
  ℕ, suc, ◌+◌, ◌*◌, ◌^◌, String, true, false, ◌≡◌, Option, none, some, List, [], ◌∷◌, arith, min,
  ltb, if◌then◌else◌, ap, ◌∙◌, ◌==◌, string_eq, insert,
}
use native.Mathlib.Nat.{pow-suc}
use text.Mathlib.TextEquality.{eq_iff}
use ozint.Outcome.{ToolOutcome, skipped_circuit_open}
use ozint.Health.{
  closed, open_, half_open, Breaker, check_breaker, record_breaker, is_fault, ToolHealth, entry,
  check, record_outcome,
}
use ozint.Health.Invariant.{
  IsSound, AllSound, Call, checks, records, run, entry-insert, check_of_breaker, breaker_of_check,
  check-AllSound, record-AllSound,
}

-- While a probe is out, `check` refuses and changes nothing.
probing-check :
    (now : ℕ) (b : Breaker)
    → IsSound b
    → b.state ≡ half_open
    → check_breaker now b ≡ some (some (skipped_circuit_open b.opens_until), b)
unfolding check_breaker
probing-check now b h s = ground arith

-- An admitted probe leaves the breaker half-open.
pub admitted_probe :
    (now : ℕ) (b b' : Breaker)
    → b.state ≡ open_
    → check_breaker now b ≡ some (none, b')
    → (b'.state ≡ half_open) × (b'.probe_in_flight ≡ true)
unfolding check_breaker
admitted_probe now b b' s e = ground arith

-- No call of the list records an outcome for the tool.
abbrev pub Unrecorded : String → List Call → Type 0
Unrecorded t [] = Unit
Unrecorded t (checks now u ∷ calls) = Unrecorded t calls
Unrecorded t (records now u o ∷ calls) = ((u == t) ≡ false) × Unrecorded t calls

entry-check :
    (t u : String) (now : ℕ) (m m' : ToolHealth) {skip : Option ToolOutcome}
    → AllSound m
    → (entry t m).state ≡ half_open
    → check now u m ≡ some (skip, m')
    → entry t m' ≡ entry t m
entry-check t u now m m' h s e =
    let (b, c, same) = breaker_of_check now u m e in
    ground (arith, eq_iff u t, entry-insert u t b m, c, same, probing-check now (entry t m) (h t))

-- Until a record for the tool, its half-open breaker does not change.
entry-run :
    (t : String) (calls : List Call) (m m' : ToolHealth)
    → AllSound m
    → (entry t m).state ≡ half_open
    → Unrecorded t calls
    → run calls m ≡ some m'
    → entry t m' ≡ entry t m
unfolding run
entry-run t [] m m' h s q e = ground arith
entry-run t (checks now u ∷ calls) m m' h s q e =
    let (skip, m₁, c, h₁) = check-AllSound now u m h in
    let keep = entry-check t u now m m₁ h s c in
    entry-run t calls m₁ m' h₁ (ap (λ (b : Breaker). b.state) keep ∙ s) q (rw (c, run) at e) ∙ keep
entry-run t (records now u o ∷ calls) m m' h s q e =
    let m₁ = record_outcome now u o m in
    let keep : entry t m₁ ≡ entry t m =
      unfold record_outcome in (rw (entry-insert u t _ m) (rw q.0)) in
    entry-run t calls m₁ m' (record-AllSound now u o m h) (ap (λ (b : Breaker). b.state) keep ∙ s)
      q.1 e
    ∙ keep

-- On a table whose breakers are all sound, once the breaker of a tool is half-open, every
-- `check` for that tool is refused, at any instant and after any calls on the table, as long as
-- no outcome is recorded for the tool: no second probe is let through, and a probe whose outcome
-- is never recorded is never replaced.
pub half_open-check_refuses :
    (t : String) (calls : List Call) (now : ℕ) (m m' : ToolHealth)
    → AllSound m
    → (entry t m).state ≡ half_open
    → Unrecorded t calls
    → run calls m ≡ some m'
    → check now t m'
      ≡ some (some (skipped_circuit_open (entry t m).opens_until), insert t (entry t m) m')
half_open-check_refuses t calls now m m' h s q e =
    let same = entry-run t calls m m' h s q e in
    check_of_breaker now t m' (rw same (probing-check now (entry t m) (h t) s))

-- A breaker in an outage, after the number of probes that have failed, and the instant at which the
-- last failure was recorded.
pub data Outage : ℕ → ℕ → Breaker → Type 0 where
  tripped :
      (now : ℕ) (o : ToolOutcome) (b : Breaker)
      → IsSound b
      → b.state ≡ closed
      → (record_breaker now o b).state ≡ open_
      → Outage 0 now (record_breaker now o b)
  failed_again :
      {n at : ℕ} {b b' : Breaker} (now later : ℕ) (o : ToolOutcome)
      → Outage n at b
      → check_breaker now b ≡ some (none, b')
      → is_fault o ≡ true
      → Outage (suc n) later (record_breaker later o b')

-- The wait after n failed probes, in seconds: 30 doubled n times, an hour at most.
abbrev pub wait_secs : ℕ → ℕ
wait_secs n = min (30 * 2 ^ n) 3600

-- Open since this instant, for the wait after n failed probes.
abbrev pub IsWaiting : ℕ → ℕ → Breaker → Type 0
IsWaiting n at b =
    (b.state ≡ open_)
    × (b.backoff_secs ≡ wait_secs n)
    × (b.opens_until ≡ some (at + wait_secs n * 1000))

IsWaiting-retry :
    (n at now later : ℕ) (o : ToolOutcome) (b b' : Breaker)
    → IsWaiting n at b
    → check_breaker now b ≡ some (none, b')
    → is_fault o ≡ true
    → IsWaiting (suc n) later (record_breaker later o b')
unfolding check_breaker record_breaker
IsWaiting-retry n at now later o b b' h c f =
    (ground arith, ground (arith, pow-suc 2 n), ground (arith, pow-suc 2 n))

Outage-IsWaiting : {n at : ℕ} {b : Breaker} → Outage n at b → IsWaiting n at b
Outage-IsWaiting (tripped now o b h c s) =
    (s, unfold record_breaker in ground arith, unfold record_breaker in ground arith)
Outage-IsWaiting (failed_again {n} {at} {b} {b'} now later o h c f) =
    IsWaiting-retry n at now later o b b' (Outage-IsWaiting h) c f

-- From the trip of a sound closed breaker on, after n failed probes the last of which was recorded at
-- an instant: `check` refuses and changes nothing until 30 seconds doubled n times, an hour at most,
-- have passed since that instant, and names the end of that wait; from then on it lets a probe
-- through, which leaves the breaker half-open.
pub check_breaker-Outage :
    {n at : ℕ} {b : Breaker} (now : ℕ)
    → Outage n at b
    → check_breaker now b
      ≡ some (
          if ltb now (at + min (30 * 2 ^ n) 3600 * 1000)
          then (some (skipped_circuit_open (some (at + min (30 * 2 ^ n) 3600 * 1000))), b)
          else (none, record b { state = half_open; probe_in_flight = true }))
unfolding check_breaker
check_breaker-Outage {n} {at} {b} now h = let w = Outage-IsWaiting h in ground (arith, w)

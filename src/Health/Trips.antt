-- ===== src/Health/Trips.antt =====
-- When a closed breaker of health.rs trips.
use ozint.Base.{
  ℕ, zero, suc, ◌+◌, ◌≤◌, ◌<◌, true, false, ◌≡◌, ◌↔◌, ◌⊎◌, inl, inr, refl, List, [], ◌∷◌, arith,
  Bool-cases, ap, ◌∙◌,
}
use ozint.Outcome.{ToolOutcome}
use ozint.Health.{closed, open_, Breaker, breaker_default, record_breaker, is_fault}

-- Outcomes recorded one after the other, each at its instant.
unfoldable pub record_all : List (ℕ × ToolOutcome) → Breaker → Breaker
record_all [] b = b
record_all ((now, o) ∷ os) b = record_all os (record_breaker now o b)

-- The first `k` outcomes are there and are faults.
abbrev pub StartsFaulty : ℕ → List (ℕ × ToolOutcome) → Type 0
StartsFaulty zero os = Unit
StartsFaulty (suc k) [] = ⊥
StartsFaulty (suc k) ((now, o) ∷ os) = (is_fault o ≡ true) × StartsFaulty k os

-- Three faults in a row, somewhere.
abbrev pub ThreeInARow : List (ℕ × ToolOutcome) → Type 0
ThreeInARow [] = ⊥
ThreeInARow (x ∷ os) = StartsFaulty 3 (x ∷ os) ⊎ ThreeInARow os

open-record_all :
    (os : List (ℕ × ToolOutcome)) (b : Breaker) → b.state ≡ open_ → record_all os b ≡ b
unfolding record_all record_breaker
open-record_all [] b s = refl
open-record_all ((now, o) ∷ os) b s =
    let same : record_breaker now o b ≡ b = ground arith in rw same (open-record_all os b s)

module _ (now : ℕ) (o : ToolOutcome) (b : Breaker) (c : b.state ≡ closed) where
  reset-record :
      is_fault o ≡ false
      → ((record_breaker now o b).state ≡ closed)
        × ((record_breaker now o b).consecutive_failures ≡ 0)
  unfolding record_breaker
  reset-record q = ground arith

  count-record :
      is_fault o ≡ true
      → b.consecutive_failures < 2
      → ((record_breaker now o b).state ≡ closed)
        × ((record_breaker now o b).consecutive_failures ≡ b.consecutive_failures + 1)
  unfolding record_breaker
  count-record q l = ground arith

  trip-record :
      is_fault o ≡ true → b.consecutive_failures ≡ 2 → (record_breaker now o b).state ≡ open_
  unfolding record_breaker
  trip-record q l = ground arith

StartsFaulty-le :
    (j k : ℕ) (os : List (ℕ × ToolOutcome)) → j ≤ k → StartsFaulty k os → StartsFaulty j os
StartsFaulty-le zero k os l h = tt
StartsFaulty-le (suc j) zero os l h = absurd (omega arith)
StartsFaulty-le (suc j) (suc k) [] l h = h
StartsFaulty-le (suc j) (suc k) (x ∷ os) l (q, h) = (q, StartsFaulty-le j k os (omega arith) h)

StartsFaulty-Three : (os : List (ℕ × ToolOutcome)) → StartsFaulty 3 os → ThreeInARow os
StartsFaulty-Three [] h = h
StartsFaulty-Three (x ∷ os) h = inl h

abbrev TripsIff : List (ℕ × ToolOutcome) → ℕ → Breaker → Type 0
TripsIff os k b = ((record_all os b).state ≡ open_) ↔ (StartsFaulty (suc k) os ⊎ ThreeInARow os)

-- One more outcome, where the rest is known from the breaker it leaves.
module _ (now : ℕ) (o : ToolOutcome) (os : List (ℕ × ToolOutcome)) (b : Breaker) where
  after_reset :
      (k : ℕ)
      → is_fault o ≡ false
      → TripsIff os 2 (record_breaker now o b)
      → TripsIff ((now, o) ∷ os) k b
  unfolding record_all
  after_reset k q ih = (
    λ s. elim (ih.0 s) [ inl h ↦ inr (inr (StartsFaulty-Three os h)) | inr h ↦ inr (inr h) ],
    elim [ inl h ↦ cc (q, h.0) | inr (inl h) ↦ cc (q, h.0) | inr (inr h) ↦ ih.1 (inr h) ],
  )

  after_count :
      (k : ℕ)
      → suc k ≤ 2
      → is_fault o ≡ true
      → TripsIff os k (record_breaker now o b)
      → TripsIff ((now, o) ∷ os) (suc k) b
  unfolding record_all
  after_count k l q ih = (
    λ s. elim (ih.0 s) [ inl h ↦ inl (q, h) | inr h ↦ inr (inr h) ],
    elim [
      | inl h ↦ ih.1 (inl h.1)
      | inr (inl h) ↦ ih.1 (inl (StartsFaulty-le (suc k) 2 os l h.1))
      | inr (inr h) ↦ ih.1 (inr h)
    ],
  )

  after_trip :
      is_fault o ≡ true → (record_breaker now o b).state ≡ open_ → TripsIff ((now, o) ∷ os) 0 b
  unfolding record_all
  after_trip q s =
      (λ _. inl (q, tt), λ _. ap (λ (x : Breaker). x.state) (open-record_all os _ s) ∙ s)

open_iff :
    (os : List (ℕ × ToolOutcome)) (k : ℕ) (b : Breaker)
    → b.state ≡ closed
    → b.consecutive_failures + suc k ≡ 3
    → TripsIff os k b
open_iff [] k b c f =
    unfold record_all in (λ s. cc (c, s), elim [ inl h ↦ absurd h | inr h ↦ absurd h ])
open_iff ((now, o) ∷ os) zero b c f = elim (Bool-cases (is_fault o)) [
  | inl q ↦ after_trip now o os b q (trip-record now o b c q (omega arith))
  | inr q ↦
      let (c', f') = reset-record now o b c q in
      after_reset now o os b 0 q (open_iff os 2 (record_breaker now o b) c' (omega arith))
]
open_iff ((now, o) ∷ os) (suc k) b c f = elim (Bool-cases (is_fault o)) [
  | inl q ↦
      let (c', f') = count-record now o b c q (omega arith) in
      after_count now o os b k (omega arith) q
        (open_iff os k (record_breaker now o b) c' (omega arith))
  | inr q ↦
      let (c', f') = reset-record now o b c q in
      after_reset now o os b (suc k) q (open_iff os 2 (record_breaker now o b) c' (omega arith))
]

-- From a new breaker, recorded outcomes trip it exactly when three faults in a row are among them.
pub trips_iff :
    (os : List (ℕ × ToolOutcome)) → ((record_all os breaker_default).state ≡ open_) ↔ ThreeInARow os
trips_iff os =
    let whole =
      open_iff os 2 breaker_default (unfold breaker_default in refl)
        (unfold breaker_default in refl) in
    (λ s. elim (whole.0 s) [ inl h ↦ StartsFaulty-Three os h | inr h ↦ h ], λ h. whole.1 (inr h))

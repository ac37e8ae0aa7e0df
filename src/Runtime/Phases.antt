-- ===== src/Runtime/Phases.antt =====
-- The phase loop of `fire_layer` (crates/ozint/src/runtime.rs) as a relation, and enough fuel for it.
use ozint.Base.{
  ℕ, zero, suc, ◌+◌, ◌-◌, ◌≤◌, ◌<◌, true, false, ◌≡◌, refl, sym, ◌∙◌, ap, none, some, List, [], ◌∷◌,
  ◌++◌, length, length-append, Option-cases, Bool-cases, inl, inr, arith, take, drop,
}
use ozint.LayerPlan.{LayerPhase, LayerPlan, PhaseAcc, firing_now}
use ozint.LayerPlan.Firing.{Fires, firing_now-Fires}
use ozint.Runtime.Layer.{Layer, Setting}
use ozint.Runtime.Engine.{run_phase, run_phases, sweep, reconcile, settle, run_layer}

take-append {ℓ} : {A : Type ℓ} (xs ys : List A) → take (length xs) (xs ++ ys) ≡ xs
take-append [] ys = refl
take-append (x ∷ xs) ys = ap (◌∷◌ x) (take-append xs ys)

drop-append {ℓ} : {A : Type ℓ} (xs ys : List A) → drop (length xs) (xs ++ ys) ≡ ys
drop-append [] ys = refl
drop-append (x ∷ xs) ys = drop-append xs ys

drop-nil {ℓ} : {A : Type ℓ} (n : ℕ) → drop {A = A} n [] ≡ []
drop-nil zero = refl
drop-nil (suc n) = refl

drop-drop {ℓ} : {A : Type ℓ} (m n k : ℕ) (xs : List A) → k ≡ m + n → drop k xs ≡ drop n (drop m xs)
drop-drop zero n k xs e = ap (λ j. drop j xs) (omega arith)
drop-drop (suc m) n k [] e = drop-nil k ∙ sym (drop-nil n)
drop-drop (suc m) n zero (x ∷ xs) e = absurd (omega arith)
drop-drop (suc m) n (suc k) (x ∷ xs) e = drop-drop m n k xs (omega arith)

length-drop {ℓ} : {A : Type ℓ} (n : ℕ) (xs : List A) → length (drop n xs) ≡ length xs - n
length-drop zero xs = omega arith
length-drop (suc n) [] = omega arith
length-drop (suc n) (x ∷ xs) = omega (arith, length-drop n xs)

module _ {plan : LayerPlan} {start : ℕ} {acc : PhaseAcc} {idx : ℕ} {phase : LayerPhase}
    (f : Fires plan start acc idx phase) where
  -- The phases that the loop reports as jumped over.
  pub passed-Fires : take (idx - start) (drop start plan) ≡ f.passed
  passed-Fires =
      let gap : idx - start ≡ length f.passed = omega (arith, f.place) in
      rw (f.split, gap) (take-append f.passed (phase ∷ f.after))

  pub after-Fires : drop (suc idx) plan ≡ f.after
  after-Fires =
      drop-drop start (suc (length f.passed)) (suc idx) plan (omega (arith, f.place))
      ∙ ap (drop (suc (length f.passed))) f.split
      ∙ drop-drop (length f.passed) 1 (suc (length f.passed)) (f.passed ++ phase ∷ f.after)
          (omega arith)
      ∙ ap (drop 1) (drop-append f.passed (phase ∷ f.after))

  idx-Fires : (start ≤ idx) × (idx < length plan)
  idx-Fires =
      let left : length plan - start ≡ length (f.passed ++ phase ∷ f.after) =
        sym (length-drop start plan) ∙ ap length f.split in
      (
        omega (arith, f.place),
        omega (arith, left, f.place, length-append f.passed (phase ∷ f.after)),
      )

module _ {H : Type 0} (s : Setting H) (plan : LayerPlan) where
  -- From phase index `i` and layer `l`, the loop stops at a phase index and a layer.
  pub data Phases : ℕ → Layer H → ℕ → Layer H → Type 0 where
    ended : {i : ℕ} {l : Layer H} → firing_now plan i l.acc ≡ none → Phases i l i l
    cut_short :
        {i : ℕ} {l : Layer H} {idx : ℕ} {phase : LayerPhase} (f : Fires plan i l.acc idx phase)
        → (run_phase s f.passed phase l).aborted ≡ true
        → Phases i l (suc idx) (run_phase s f.passed phase l)
    onward :
        {i : ℕ} {l : Layer H} {idx : ℕ} {phase : LayerPhase} {j : ℕ} {l' : Layer H}
        (f : Fires plan i l.acc idx phase)
        → (run_phase s f.passed phase l).aborted ≡ false
        → Phases (suc idx) (run_phase s f.passed phase l) j l'
        → Phases i l j l'

  -- The loop ends: one unit of fuel for each phase left and one more are enough.
  pub run_phases-Phases :
      (fuel i : ℕ) (l : Layer H)
      → i ≤ length plan
      → length plan < fuel + i
      → (j : ℕ) × (l' : Layer H) × (run_phases s fuel plan i l ≡ some (j, l')) × Phases i l j l'
  unfolding run_phases
  run_phases-Phases zero i l within enough = absurd (omega arith)
  run_phases-Phases (suc fuel) i l within enough = elim (Option-cases (firing_now plan i l.acc)) [
    | inl e ↦ rw (e, run_phases) (i, l, refl, ended e)
    | inr ((idx, phase), e) ↦
        let f = firing_now-Fires plan i l.acc e in
        elim (Bool-cases (run_phase s f.passed phase l).aborted) [
          | inl a ↦
              rw (e, passed-Fires f, a, run_phases)
                (suc idx, run_phase s f.passed phase l, refl, cut_short f a)
          | inr a ↦
              let (j, l', k, r) =
                run_phases-Phases fuel (suc idx) (run_phase s f.passed phase l)
                  (omega (arith, idx-Fires f)) (omega (arith, idx-Fires f)) in
              rw (e, passed-Fires f, a, run_phases) (j, l', k, onward f a r)
        ]
  ]

  -- How a run of the layer ends.
  pub run_layer-Phases :
      (l : Layer H)
      → (j : ℕ) × (l' : Layer H) × (run_layer s (suc (length plan)) plan l
          ≡ some (settle s (reconcile s (s.world l'.turns) (sweep s plan j l'))))
        × Phases 0 l j l'
  unfolding run_layer
  run_layer-Phases l =
      let (j, l', e, r) = run_phases-Phases (suc (length plan)) 0 l (omega arith) (omega arith) in
      (j, l', rw (e, run_layer) refl, r)

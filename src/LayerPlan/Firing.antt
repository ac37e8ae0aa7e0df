-- ===== src/LayerPlan/Firing.antt =====
-- Which phase of a plan fires next, and which are passed over (`firing_now` and `skipped_from` of
-- layer_plan.rs).
use ozint.Base.{
  ℕ, zero, suc, ◌+◌, ◌≤◌, String, true, false, ◌≡◌, ◌↔◌, ◌⊎◌, inl, inr, refl, none, some, List, [],
  ◌∷◌, ◌++◌, map, arith, drop, length, All, unwrap_or, Bool-cases, length-append, ap, subst, ◌∙◌,
}
use ozint.LayerPlan.{
  LayerPhase, LayerPlan, PhaseAcc, holds, predicate_name, find_phase, firing_now, skipped_from,
  reputation_flagged, fact, flag, max_possible, all_tools,
}

-- The phases of a list that are closed to this accumulator, with their reasons.
abbrev pub reasons : LayerPlan → List (LayerPhase × String)
reasons = map (λ phase. (phase, predicate_name phase.gate))

abbrev pub Closed : PhaseAcc → LayerPlan → Type 0
Closed acc = All (λ phase. holds phase.gate acc ≡ false)

-- What `firing_now` finds: the phases from the index on are some closed ones, the phase found,
-- whose predicate holds, and the rest.
pub record Fires (plan : LayerPlan) (start : ℕ) (acc : PhaseAcc) (idx : ℕ) (phase : LayerPhase)
    : Type 0 where
  pub passed : LayerPlan
  pub after : LayerPlan
  pub split : drop start plan ≡ passed ++ phase ∷ after
  pub closed : Closed acc passed
  pub opened : holds phase.gate acc ≡ true
  pub place : idx ≡ start + length passed

find_phase-Fires :
    (base : ℕ) (plan : LayerPlan) (start : ℕ) (acc : PhaseAcc) {idx : ℕ} {phase : LayerPhase}
    → find_phase base plan start acc ≡ some (idx, phase)
    → (i : ℕ) × (idx ≡ base + i) × Fires plan start acc i phase
unfolding find_phase
find_phase-Fires base [] start acc e = cc
find_phase-Fires base (p ∷ ps) (suc start) acc e =
    let (i, at, f) = find_phase-Fires (suc base) ps start acc e in
    (
      suc i,
      omega arith,
      record {
        passed = f.passed;
        after = f.after;
        split = f.split;
        closed = f.closed;
        opened = f.opened;
        place = ap suc f.place ∙ (omega arith);
      },
    )
find_phase-Fires base (p ∷ ps) zero acc {idx} {phase} e = elim (Bool-cases (holds p.gate acc)) [
  | inl yes_ ↦ (
    0,
    ground arith,
    record {
      passed = [];
      after = ps;
      split = ground arith;
      closed = tt;
      opened = ground arith;
      place = omega arith;
    },
  )
  | inr no_ ↦
      let (i, at, f) =
        find_phase-Fires (suc base) ps zero acc {idx = idx} {phase = phase} (ground arith) in
      (
        suc i,
        omega arith,
        record {
          passed = p ∷ f.passed;
          after = f.after;
          split = ap (◌∷◌ p) f.split;
          closed = (no_, f.closed);
          opened = f.opened;
          place = ap suc f.place ∙ (omega arith);
        },
      )
]

-- A phase that `firing_now` finds is the first from the index on whose predicate holds.
pub firing_now-Fires :
    (plan : LayerPlan) (start : ℕ) (acc : PhaseAcc) {idx : ℕ} {phase : LayerPhase}
    → firing_now plan start acc ≡ some (idx, phase)
    → Fires plan start acc idx phase
unfolding firing_now
firing_now-Fires plan start acc {phase} e =
    let (i, at, f) = find_phase-Fires 0 plan start acc e in
    subst (λ (n : ℕ). Fires plan start acc n phase) (omega arith) f

find_phase-none :
    (base : ℕ) (plan : LayerPlan) (start : ℕ) (acc : PhaseAcc)
    → find_phase base plan start acc ≡ none
    → Closed acc (drop start plan) × (skipped_from plan start acc ≡ reasons (drop start plan))
unfolding find_phase skipped_from
find_phase-none base [] zero acc e = (tt, refl)
find_phase-none base [] (suc start) acc e = (tt, refl)
find_phase-none base (p ∷ ps) (suc start) acc e = find_phase-none (suc base) ps start acc e
find_phase-none base (p ∷ ps) zero acc e = ground (arith, find_phase-none (suc base) ps zero acc)

-- When no phase is found, every phase from the index on is closed, and `skipped_from` lists them
-- all, in order, each with the name of its predicate.
pub firing_now-none :
    (plan : LayerPlan) (start : ℕ) (acc : PhaseAcc)
    → firing_now plan start acc ≡ none
    → Closed acc (drop start plan) × (skipped_from plan start acc ≡ reasons (drop start plan))
unfolding firing_now
firing_now-none plan start acc e = find_phase-none 0 plan start acc e

-- The denominator of a layer is the number of the tools of its plan.
pub max_possible-length : (plan : LayerPlan) → max_possible plan ≡ length (all_tools plan)
unfolding max_possible all_tools
max_possible-length [] = refl
max_possible-length (p ∷ ps) =
    omega (arith, length-append p.tools (all_tools ps), max_possible-length ps)

-- The third wave of an address opens exactly on an abuse score of at least 25, an anonymizer flag,
-- or a malicious flag.
pub reputation_flagged_iff :
    (acc : PhaseAcc)
    → (holds reputation_flagged acc ≡ true) ↔ (
        (25 ≤ unwrap_or 0 (fact acc "abuse-score"))
        ⊎ (flag acc "anonymizer" ≡ true)
        ⊎ (flag acc "malicious" ≡ true))
unfolding holds reputation_flagged
reputation_flagged_iff acc = ground arith

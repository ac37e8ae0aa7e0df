-- ===== src/Runtime/Invariant.antt =====
-- Invariants of a layer of crates/ozint/src/runtime.rs: what each visit keeps, the loops keep.
use ozint.Base.{
  ℕ, suc, String, false, ◌≡◌, refl, List, [], ◌∷◌, Bool-cases, if-keeps, inl, inr, map,
}
use ozint.LayerPlan.{LayerPhase, LayerPlan, Handoff, skipped_from}
use ozint.Runtime.{report_phase_skipped}
use ozint.Runtime.Layer.{Turn, Layer, Setting}
use ozint.Runtime.Engine.{visit, run_tools, skip_phases, run_phase, sweep}
use ozint.Runtime.View.{Visit, visit-Visit}
use ozint.Runtime.Phases.{Phases, ended, cut_short, onward}

-- A visit follows only a layer that is not aborted.
pub record IsKept {H : Type 0} (s : Setting H) (P : Layer H → Type 0) : Type 0 where
  pub ticks : (l : Layer H) (n : ℕ) → P l → P (record l { turns = n })
  pub skips :
      (l : Layer H) (phase : LayerPhase)
      → P l
      → P (record l { reports = report_phase_skipped s.catalogue phase l.reports })
  pub visits :
      {tool_id : String} {rest : List String} {turn : Turn} {l l' : Layer H}
      → Visit s tool_id rest turn l l'
      → l.aborted ≡ false
      → P l
      → P l'

module _ {H : Type 0} (s : Setting H) (P : Layer H → Type 0) (kept : IsKept s P) where
  pub run_tools-keeps :
      (snapshot : Handoff) (ids : List String) (l : Layer H)
      → l.aborted ≡ false
      → P l
      → P (run_tools s snapshot ids l)
  unfolding run_tools
  run_tools-keeps snapshot [] l e p = p
  run_tools-keeps snapshot (id ∷ ids) l e p =
      let l₁ = record l { turns = suc l.turns } in
      let turn = s.world l.turns in
      let p₁ =
        kept.visits (visit-Visit s snapshot id (id ∷ ids) turn l₁) e
          (kept.ticks l (suc l.turns) p) in
      let l₂ = visit s snapshot id (id ∷ ids) turn l₁ in
      elim (Bool-cases l₂.aborted) [
        | inl a ↦ rw (a, run_tools) p₁
        | inr a ↦ rw (a, run_tools) (run_tools-keeps snapshot ids l₂ a p₁)
      ]

  pub skip_phases-keeps :
      (phases : List LayerPhase) (l : Layer H) → P l → P (skip_phases s phases l)
  unfolding skip_phases
  skip_phases-keeps [] l p = p
  skip_phases-keeps (phase ∷ phases) l p = skip_phases-keeps phases _ (kept.skips l phase p)

  pub skip_phases-aborted :
      (phases : List LayerPhase) (l : Layer H) → (skip_phases s phases l).aborted ≡ l.aborted
  unfolding skip_phases
  skip_phases-aborted [] l = refl
  skip_phases-aborted (phase ∷ phases) l = skip_phases-aborted phases _

  pub run_phase-keeps :
      (passed : List LayerPhase) (phase : LayerPhase) (l : Layer H)
      → l.aborted ≡ false
      → P l
      → P (run_phase s passed phase l)
  unfolding run_phase
  run_phase-keeps passed phase l e p =
      run_tools-keeps _ phase.tools _ (rw (skip_phases-aborted passed l) e)
        (skip_phases-keeps passed l p)

  pub Phases-keeps :
      {plan : LayerPlan} {i : ℕ} {l : Layer H} {j : ℕ} {l' : Layer H}
      → Phases s plan i l j l'
      → l.aborted ≡ false
      → P l
      → P l'
  Phases-keeps (ended e) a p = p
  Phases-keeps (cut_short {l = l} {phase = phase} f c) a p = run_phase-keeps f.passed phase l a p
  Phases-keeps (onward {l = l} {phase = phase} f c r) a p =
      Phases-keeps r c (run_phase-keeps f.passed phase l a p)

  pub sweep-keeps : (plan : LayerPlan) (j : ℕ) (l : Layer H) → P l → P (sweep s plan j l)
  unfolding sweep
  sweep-keeps plan j l p =
      if-keeps P l.aborted p (skip_phases-keeps (map (λ q. q.0) (skipped_from plan j l.acc)) l p)

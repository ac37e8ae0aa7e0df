-- ===== src/Runtime/Accounts.antt =====
-- The reports of a layer of crates/ozint/src/runtime.rs: no tool of the plan goes without one.
use ozint.Base.{
  ℕ, suc, String, true, false, ◌≡◌, refl, sym, ◌∙◌, ap, subst, none, some, List, [], ◌∷◌, ◌++◌, any,
  All-append, if-keeps, if-cases, not, ◌&&◌, ◌==◌, string_eq, map, length, drop, append_assoc,
}
use ozint.Outcome.{report_new}
use ozint.LayerPlan.{LayerPhase, LayerPlan, Handoff, firing_now, skipped_from, all_tools}
use ozint.LayerPlan.Firing.{reasons, firing_now-none}
use ozint.Runtime.{has_report, report_cancelled_rest, report_phase_skipped}
use ozint.Runtime.Layer.{Turn, Layer, Setting, send, push_report, abort, settle_tool, gated_verdict}
use ozint.Runtime.Engine.{
  visit, run_tools, skip_phases, run_phase, sweep, reconcile, settle, run_layer,
}
use ozint.Runtime.View.{Visit, cut, cut_started, already_skipped, accounted, finished, visit-Visit}
use ozint.Runtime.Phases.{Phases, ended, cut_short, onward, after-Fires, run_layer-Phases}
use ozint.Runtime.Invariant.{
  IsKept, run_tools-keeps, skip_phases-keeps, skip_phases-aborted, run_phase-keeps, Phases-keeps,
  sweep-keeps,
}
use ozint.Runtime.Yield.{take_yield-Grew, mark_parent-Grew}
use ozint.Runtime.Reported.{
  Covers, has_report-pushed, report_rest-Covers, Visit-reports, report-IsKept, Covers-kept,
}

module _ {H : Type 0} (s : Setting H) where
  -- The tools that the registry could not run, whose reports stand before the loop.
  abbrev pub IsSkipped : String → Type 0
  IsSkipped id = any (λ p. p.0.id == id) s.skipped ≡ true

  Visit-Covers :
      {tool_id : String} {ids : List String} {turn : Turn} {l l' : Layer H}
      → Visit s tool_id (tool_id ∷ ids) turn l l'
      → l.aborted ≡ false
      → (IsSkipped tool_id → has_report tool_id l.reports ≡ true)
      → (has_report tool_id l'.reports ≡ true) × (l'.aborted ≡ true → Covers ids l'.reports)
  unfolding abort report_cancelled_rest push_report settle_tool send report_new
  Visit-Covers {tool_id} {ids} {l = l} (cut h) a known =
      let all = report_rest-Covers s.catalogue _ (tool_id ∷ ids) l.reports in (all.0, λ e. all.1)
  Visit-Covers {tool_id} {ids} {l = l} (cut_started h tool) a known =
      let all = report_rest-Covers s.catalogue _ (tool_id ∷ ids) l.reports in (all.0, λ e. all.1)
  Visit-Covers (already_skipped e) a known = (known e, λ c. cc)
  Visit-Covers {l = l} (accounted h r e) a known = (
    subst (λ i. has_report i (l.reports ++ r ∷ []) ≡ true) e (has_report-pushed l.reports r),
    λ c. cc,
  )
  Visit-Covers {turn = turn} {l = l} (finished h tool e outcome produced) a known =
      let g = take_yield-Grew s tool produced turn _ in
      let r = report_new tool.id tool.label outcome turn.elapsed_ms tool.gated tool.method in
      let own : has_report tool.id (l.reports ++ r ∷ []) ≡ true = has_report-pushed l.reports r in
      (
        rw (g.same_reports) (subst (λ i. has_report i (l.reports ++ r ∷ []) ≡ true) e own),
        λ c. let contra : true ≡ false = sym c ∙ g.same_aborted ∙ a in absurd (cc),
      )

  -- After the tool loop of a phase, cancelled or not, each tool of the phase has a report.
  pub run_tools-Covers :
      (snapshot : Handoff) (ids : List String) (l : Layer H)
      → l.aborted ≡ false
      → ((id : String) → IsSkipped id → has_report id l.reports ≡ true)
      → Covers ids (run_tools s snapshot ids l).reports
  unfolding run_tools
  run_tools-Covers snapshot [] l a known = tt
  run_tools-Covers snapshot (id ∷ ids) l a known =
      let l₁ = record l { turns = suc l.turns } in
      let turn = s.world l.turns in
      let v = visit-Visit s snapshot id (id ∷ ids) turn l₁ in
      let l₂ = visit s snapshot id (id ∷ ids) turn l₁ in
      let (own, rest) = Visit-Covers v a (known id) in
      if-cases (λ (l' : Layer H). Covers (id ∷ ids) l'.reports) l₂.aborted (λ e. (own, rest e))
        (λ e. (
          run_tools-keeps s _ (report-IsKept s id) snapshot ids l₂ e own,
          run_tools-Covers snapshot ids l₂ e (λ i k. Visit-reports s i v (known i k)),
        ))

  all_tools-append : (xs ys : LayerPlan) → all_tools (xs ++ ys) ≡ all_tools xs ++ all_tools ys
  unfolding all_tools
  all_tools-append [] ys = refl
  all_tools-append (x ∷ xs) ys =
      ap (λ ids. x.tools ++ ids) (all_tools-append xs ys)
      ∙ sym (append_assoc x.tools (all_tools xs) (all_tools ys))

  all_tools-phase :
      (xs : LayerPlan) (p : LayerPhase) (ys : LayerPlan)
      → all_tools (xs ++ p ∷ ys) ≡ (all_tools xs ++ p.tools) ++ all_tools ys
  unfolding all_tools
  all_tools-phase xs p ys =
      all_tools-append xs (p ∷ ys) ∙ sym (append_assoc (all_tools xs) p.tools (all_tools ys))

  skip_phases-Covers :
      (phases : LayerPlan) (l : Layer H)
      → Covers (all_tools phases) (skip_phases s phases l).reports
  unfolding skip_phases all_tools report_phase_skipped
  skip_phases-Covers [] l = tt
  skip_phases-Covers (phase ∷ phases) l =
      All-append _ phase.tools (all_tools phases)
        (skip_phases-keeps s _ (Covers-kept s phase.tools) phases _
          (report_rest-Covers s.catalogue _ phase.tools l.reports))
        (skip_phases-Covers phases _)

  abbrev Known : Layer H → Type 0
  Known l = (id : String) → IsSkipped id → has_report id l.reports ≡ true

  Known-IsKept : IsKept s Known
  Known-IsKept = record {
    ticks = λ l n k. k;
    skips = λ l phase k id e. (report-IsKept s id).skips l phase (k id e);
    visits = λ v a k id e. Visit-reports s id v (k id e);
  }

  run_phase-Covers :
      (passed : LayerPlan) (phase : LayerPhase) (l : Layer H)
      → l.aborted ≡ false
      → Known l
      → Covers (all_tools passed ++ phase.tools) (run_phase s passed phase l).reports
  unfolding run_phase
  run_phase-Covers passed phase l a known =
      let a' : (skip_phases s passed l).aborted ≡ false =
        skip_phases-aborted s _ Known-IsKept passed l ∙ a in
      All-append _ (all_tools passed) phase.tools
        (run_tools-keeps s _ (Covers-kept s (all_tools passed)) _ phase.tools _ a'
          (skip_phases-Covers passed l))
        (run_tools-Covers _ phase.tools _ a'
          (skip_phases-keeps s Known Known-IsKept passed l known))

  reasons-phases : (phases : LayerPlan) → map (λ p. p.0) (reasons phases) ≡ phases
  reasons-phases [] = refl
  reasons-phases (p ∷ ps) = ap (◌∷◌ p) (reasons-phases ps)

  sweep-Covers :
      (plan : LayerPlan) (j : ℕ) (l : Layer H)
      → l.aborted ≡ false
      → firing_now plan j l.acc ≡ none
      → Covers (all_tools (drop j plan)) (sweep s plan j l).reports
  unfolding sweep
  sweep-Covers plan j l a e =
      if-cases (λ (l' : Layer H). Covers (all_tools (drop j plan)) l'.reports) l.aborted
        (λ c. let contra : true ≡ false = sym c ∙ a in absurd (cc))
        (λ c.
          rw ((firing_now-none plan j l.acc e).1, reasons-phases (drop j plan))
            (skip_phases-Covers (drop j plan) l))

  Phases-Covers :
      {plan : LayerPlan} {i : ℕ} {l : Layer H} {j : ℕ} {l' : Layer H}
      → Phases s plan i l j l'
      → l.aborted ≡ false
      → Known l
      → l'.aborted ≡ false
      → Covers (all_tools (drop i plan)) (sweep s plan j l').reports
  Phases-Covers {plan} {l = l} (ended {i = i} e) a known still = sweep-Covers plan i l a e
  Phases-Covers (cut_short f c) a known still = cc
  Phases-Covers {plan} {j = j} {l' = l'} (onward {i = i} {l = l} {phase = phase} f c r) a known
        still =
      let l₁ = run_phase s f.passed phase l in
      let known₁ = run_phase-keeps s Known Known-IsKept f.passed phase l a known in
      let ids = all_tools f.passed ++ phase.tools in
      let here =
        sweep-keeps s _ (Covers-kept s ids) plan j l'
          (Phases-keeps s _ (Covers-kept s ids) r c (run_phase-Covers f.passed phase l a known)) in
      let there =
        subst (λ ps. Covers (all_tools ps) (sweep s plan j l').reports) (after-Fires f)
          (Phases-Covers r c known₁ still) in
      let parts : all_tools (drop i plan) ≡ ids ++ all_tools f.after =
        ap all_tools f.split ∙ all_tools-phase f.passed phase f.after in
      subst (λ all. Covers all (sweep s plan j l').reports) (sym parts)
        (All-append _ ids (all_tools f.after) here there)

  mark-reports : (turn : Turn) (l : Layer H) → (reconcile s turn l).reports ≡ l.reports
  unfolding reconcile
  mark-reports turn l =
      if-keeps (λ (l' : Layer H). l'.reports ≡ l.reports)
        ((l.emitted_parent && not l.gated_marked) && gated_verdict l.reports)
        ((mark_parent-Grew s [] true [] [] turn l).same_reports) refl

  mark-aborted : (turn : Turn) (l : Layer H) → (reconcile s turn l).aborted ≡ l.aborted
  unfolding reconcile
  mark-aborted turn l =
      if-keeps (λ (l' : Layer H). l'.aborted ≡ l.aborted)
        ((l.emitted_parent && not l.gated_marked) && gated_verdict l.reports)
        ((mark_parent-Grew s [] true [] [] turn l).same_aborted) refl

  sweep-aborted : (plan : LayerPlan) (j : ℕ) (l : Layer H) → (sweep s plan j l).aborted ≡ l.aborted
  unfolding sweep
  sweep-aborted plan j l =
      if-keeps (λ (l' : Layer H). l'.aborted ≡ l.aborted) l.aborted refl
        (skip_phases-aborted s Known Known-IsKept (map (λ q. q.0) (skipped_from plan j l.acc)) l)

  -- A layer whose run is not cancelled ends, and leaves a report for every tool of its plan.
  pub run_layer-Covers :
      (plan : LayerPlan) (l : Layer H)
      → l.aborted ≡ false
      → Known l
      → (l' : Layer H) × (run_layer s (suc (length plan)) plan l ≡ some l')
        × (l'.aborted ≡ false → Covers (all_tools plan) l'.reports)
  unfolding settle send
  run_layer-Covers plan l a known =
      let (j, ended_, ran_, phases) = run_layer-Phases s plan l in
      let swept = sweep s plan j ended_ in
      let turn = s.world ended_.turns in
      (
        settle s (reconcile s turn swept),
        ran_,
        λ still. rw (mark-reports turn swept) (
            Phases-Covers phases a known
              (sym (mark-aborted turn swept ∙ sweep-aborted plan j ended_) ∙ still)),
      )

-- ===== src/Runtime/Engine.antt =====
-- The loops of `fire_layer` of crates/ozint/src/runtime.rs, from the first phase to the terminal frame.
use ozint.Base.{
  ℕ, zero, suc, ◌-◌, String, true, false, not, ◌&&◌, Option, none, some, List, [], ◌∷◌, map, any,
  drop, take, if◌then◌else◌, ◌==◌, string_eq, concat,
}
use ozint.Outcome.{ToolOutcome, report_new, parse_error}
use ozint.LayerPlan.{Handoff, LayerPhase, LayerPlan, handoff, firing_now, skipped_from}
use ozint.Registry.{ToolDef, find}
use ozint.Store.{set_node_status}
use ozint.Runtime.{
  tool_start, terminal_for, node_status_for, report_phase_skipped, missing_input_for,
}
use ozint.Runtime.Layer.{
  DispatchOutcome, ran, dispatch_cancelled, Turn, Layer, Setting, gated_verdict, send, push_report,
  refuse, verdict_of, abort, mark_parent, settle_tool,
}

module _ {H : Type 0} (s : Setting H) where
  unfoldable pub dispatch : ToolDef → List String → DispatchOutcome → Turn → Layer H → Layer H
  unfolding abort settle_tool
  dispatch tool rest dispatch_cancelled turn l = abort s rest l
  dispatch tool rest (ran outcome produced) turn l = settle_tool s tool outcome produced turn l

  unfoldable pub start_tool : ToolDef → List String → Turn → Layer H → Layer H
  unfolding send dispatch
  start_tool tool rest turn l =
      dispatch tool rest turn.dispatched turn
        (send (tool_start s.ctx.layer_id tool.id tool.label tool.gated) l)

  unfoldable pub admit : ToolDef → List String → Option ToolOutcome → Turn → Layer H → Layer H
  unfolding abort refuse start_tool
  admit tool rest none turn l = start_tool tool rest turn l
  admit tool rest (some ToolOutcome.cancelled) turn l = abort s rest l
  admit tool rest (some dropped) turn l = refuse tool dropped l

  -- What follows the breaker's answer.
  unfoldable pub enter : ToolDef → List String → Turn → Option ToolOutcome → Layer H → Layer H
  unfolding refuse admit
  enter tool rest turn (some outcome) l = refuse tool outcome l
  enter tool rest turn none l =
      admit tool rest (if s.ctx.has_scheduler then turn.refusal else none) turn l

  unfoldable pub sample : ToolDef → List String → Turn → Layer H → Layer H
  unfolding enter
  sample tool rest turn l =
      let (answer, health) = s.breakers.check turn.now tool.id l.health in
      enter tool rest turn answer (record l { health = health })

  unfoldable pub visit_found : Handoff → ToolDef → List String → Turn → Layer H → Layer H
  unfolding refuse sample
  visit_found snapshot tool rest turn l =
      if any (λ p. p.0.id == tool.id) s.skipped
      then l
      else elim (missing_input_for tool snapshot l.acc) [
        | some missing ↦ refuse tool missing l
        | none ↦ sample tool rest turn l
      ]

  -- The body of the tool loop, at `tool_id` and with `position..` as `rest`.
  unfoldable pub visit : Handoff → String → List String → Turn → Layer H → Layer H
  unfolding abort push_report visit_found
  visit snapshot tool_id rest turn l =
      if turn.is_cancelled then abort s rest l else elim (find s.catalogue tool_id) [
        | none ↦
            push_report
              (report_new tool_id tool_id
                (parse_error
                  (concat ("layer plan names `" ∷ tool_id ∷ "`, absent from the registry" ∷ [])))
                0 false "not dispatched")
              l
        | some tool ↦ visit_found snapshot tool rest turn l
      ]

  unfoldable pub run_tools : Handoff → List String → Layer H → Layer H
  unfolding visit
  run_tools snapshot [] l = l
  run_tools snapshot (tool_id ∷ ids) l =
      let visited =
        visit snapshot tool_id (tool_id ∷ ids) (s.world l.turns)
          (record l { turns = suc l.turns }) in
      let rest = run_tools snapshot ids visited in if visited.aborted then visited else rest

  unfoldable pub skip_phases : List LayerPhase → Layer H → Layer H
  skip_phases [] l = l
  skip_phases (phase ∷ phases) l =
      skip_phases phases (record l { reports = report_phase_skipped s.catalogue phase l.reports })

  -- One phase that fires: those that were jumped over are reported first.
  unfoldable pub run_phase : List LayerPhase → LayerPhase → Layer H → Layer H
  unfolding skip_phases run_tools
  run_phase passed phase l =
      let reported = skip_phases passed l in run_tools (handoff reported.acc) phase.tools reported

  -- The phase loop, with the phase index it stops at; `none` is out of fuel.
  unfoldable pub run_phases : ℕ → LayerPlan → ℕ → Layer H → Option (ℕ × Layer H)
  unfolding run_phase
  run_phases zero plan phase_index l = none
  run_phases (suc fuel) plan phase_index l = elim (firing_now plan phase_index l.acc) [
    | none ↦ some (phase_index, l)
    | some (idx, phase) ↦
        let done = run_phase (take (idx - phase_index) (drop phase_index plan)) phase l in
        let rest = run_phases fuel plan (suc idx) done in
        if done.aborted then some (suc idx, done) else rest
  ]

  -- The tail sweep, the last gated mark, the settle decision and the terminal frame.
  unfoldable pub sweep : LayerPlan → ℕ → Layer H → Layer H
  unfolding skip_phases
  sweep plan phase_index l =
      if l.aborted then l else skip_phases (map (λ p. p.0) (skipped_from plan phase_index l.acc)) l

  unfoldable pub reconcile : Turn → Layer H → Layer H
  unfolding gated_verdict mark_parent
  reconcile turn l =
      if (l.emitted_parent && not l.gated_marked) && gated_verdict l.reports
      then mark_parent s [] true [] [] turn l
      else l

  unfoldable pub settle : Layer H → Layer H
  unfolding send verdict_of
  settle l =
      let nodes =
        (set_node_status s.ctx.parent_node_id (node_status_for (verdict_of l)) l.tree.nodes).1 in
      send (terminal_for (verdict_of l) s.ctx.layer_id l.new_children l.reports)
        (record l { tree = record l.tree { nodes = nodes } })

  -- From the phase loop to the end, on the layer that `open_layer` left.
  unfoldable pub run_layer : ℕ → LayerPlan → Layer H → Option (Layer H)
  unfolding run_phases sweep reconcile settle
  run_layer fuel plan l = elim (run_phases fuel plan 0 l) [
    | none ↦ none
    | some (phase_index, ended) ↦
        some (settle (reconcile (s.world ended.turns) (sweep plan phase_index ended)))
  ]

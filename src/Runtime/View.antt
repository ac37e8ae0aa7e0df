-- ===== src/Runtime/View.antt =====
-- The ways in which the tool loop of `fire_layer` leaves one tool, as a relation between the layer
-- before and after: what the proofs about the loop split on.
use ozint.Base.{
  String, true, ◌≡◌, refl, Option, none, some, List, any, ◌==◌, string_eq, Option-cases, Bool-cases,
  inl, inr, subst,
}
use ozint.Outcome.{ToolOutcome, ToolReport, report_new}
use ozint.LayerPlan.{Handoff}
use ozint.Registry.{ToolDef, ToolYield, find}
use ozint.Registry.Resolve.{find-id}
use ozint.Runtime.{tool_start, missing_input_for}
use ozint.Runtime.Layer.{
  DispatchOutcome, ran, dispatch_cancelled, Turn, Layer, Setting, send, push_report, refuse, abort,
  settle_tool,
}
use ozint.Runtime.Engine.{dispatch, start_tool, admit, enter, sample, visit_found, visit}

module _ {H : Type 0} (s : Setting H) where
  abbrev pub started : ToolDef → Layer H → Layer H
  started tool l = send (tool_start s.ctx.layer_id tool.id tool.label tool.gated) l

  pub data Visit (tool_id : String) (rest : List String) (turn : Turn) (l : Layer H)
      : Layer H → Type 0 where
    cut : (h : H) → Visit tool_id rest turn l (abort s rest (record l { health = h }))
    cut_started :
        (h : H) (tool : ToolDef)
        → Visit tool_id rest turn l (abort s rest (started tool (record l { health = h })))
    already_skipped : any (λ p. p.0.id == tool_id) s.skipped ≡ true → Visit tool_id rest turn l l
    accounted :
        (h : H) (r : ToolReport)
        → r.tool_id ≡ tool_id
        → Visit tool_id rest turn l (push_report r (record l { health = h }))
    finished :
        (h : H) (tool : ToolDef)
        → tool.id ≡ tool_id
        → (outcome : ToolOutcome) (produced : Option ToolYield)
        → Visit tool_id rest turn l
            (settle_tool s tool outcome produced turn (started tool (record l { health = h })))

  dispatch-Visit :
      (tool : ToolDef) (tool_id : String)
      → tool.id ≡ tool_id
      → (rest : List String) (turn : Turn) (l : Layer H) (h : H) (d : DispatchOutcome)
      → Visit tool_id rest turn l
          (dispatch s tool rest d turn (started tool (record l { health = h })))
  unfolding dispatch
  dispatch-Visit tool tool_id e rest turn l h dispatch_cancelled = cut_started h tool
  dispatch-Visit tool tool_id e rest turn l h (ran outcome produced) =
      finished h tool e outcome produced

  admit-Visit :
      (tool : ToolDef) (tool_id : String)
      → tool.id ≡ tool_id
      → (rest : List String) (turn : Turn) (l : Layer H) (h : H) (refusal : Option ToolOutcome)
      → Visit tool_id rest turn l (admit s tool rest refusal turn (record l { health = h }))
  unfolding admit start_tool refuse report_new
  admit-Visit tool tool_id e rest turn l h none =
      dispatch-Visit tool tool_id e rest turn l h turn.dispatched
  admit-Visit tool tool_id e rest turn l h (some ToolOutcome.cancelled) = cut h
  admit-Visit tool tool_id e rest turn l h (some o) = accounted h _ e

  enter-Visit :
      (tool : ToolDef) (tool_id : String)
      → tool.id ≡ tool_id
      → (rest : List String) (turn : Turn) (l : Layer H) (h : H) (answer : Option ToolOutcome)
      → Visit tool_id rest turn l (enter s tool rest turn answer (record l { health = h }))
  unfolding enter refuse report_new
  enter-Visit tool tool_id e rest turn l h none = admit-Visit tool tool_id e rest turn l h _
  enter-Visit tool tool_id e rest turn l h (some o) = accounted h _ e

  visit_found-Visit :
      (snapshot : Handoff) (tool : ToolDef) (tool_id : String)
      → tool.id ≡ tool_id
      → (rest : List String) (turn : Turn) (l : Layer H)
      → Visit tool_id rest turn l (visit_found s snapshot tool rest turn l)
  unfolding visit_found sample refuse report_new
  visit_found-Visit snapshot tool tool_id e rest turn l =
      elim (Bool-cases (any (λ p. p.0.id == tool.id) s.skipped)) [
        | inl k ↦
            rw (k, visit_found)
              (already_skipped (subst (λ i. any (λ p. p.0.id == i) s.skipped ≡ true) e k))
        | inr k ↦ elim (Option-cases (missing_input_for tool snapshot l.acc)) [
          | inl m ↦ rw (k, m, visit_found) (enter-Visit tool tool_id e rest turn l _ _)
          | inr (o, m) ↦ rw (k, m, visit_found) (accounted l.health _ e)
        ]
      ]

  pub visit-Visit :
      (snapshot : Handoff) (tool_id : String) (rest : List String) (turn : Turn) (l : Layer H)
      → Visit tool_id rest turn l (visit s snapshot tool_id rest turn l)
  unfolding visit push_report report_new
  visit-Visit snapshot tool_id rest turn l = elim (Bool-cases turn.is_cancelled) [
    | inl c ↦ rw (c, visit) (cut l.health)
    | inr c ↦ elim (Option-cases (find s.catalogue tool_id)) [
      | inl f ↦ simp (c, f, visit) (accounted l.health _ refl)
      | inr (tool, f) ↦
          simp (c, f, visit)
            (visit_found-Visit snapshot tool tool_id (find-id s.catalogue tool_id f) rest turn l)
    ]
  ]

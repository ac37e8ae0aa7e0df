-- ===== src/Runtime/Reported.antt =====
-- Reports are never taken back (crates/ozint/src/runtime.rs).
use ozint.Base.{
  String, true, ◌||◌, ◌≡◌, refl, subst, List, [], ◌∷◌, ◌++◌, any-append, All, All-map,
  if◌then◌else◌, if-keeps, ◌==◌, string_eq, eq_self, Option-cases, Bool-cases, inl, inr, arith,
}
use ozint.Outcome.{ToolOutcome, ToolReport, report_new}
use ozint.Registry.{ToolDef, find}
use ozint.Runtime.{
  has_report, report_unrun, report_rest, report_cancelled_rest, report_phase_skipped,
}
use ozint.Runtime.Layer.{Turn, Layer, Setting, send, push_report, abort, settle_tool}
use ozint.Runtime.View.{Visit, cut, cut_started, already_skipped, accounted, finished}
use ozint.Runtime.Invariant.{IsKept}
use ozint.Runtime.Yield.{take_yield-Grew}

-- Each of these tool ids has a report.
abbrev pub Covers : List String → List ToolReport → Type 0
Covers ids reports = All (λ id. has_report id reports ≡ true) ids

pub has_report-append :
    (id : String) (rs ss : List ToolReport)
    → has_report id (rs ++ ss) ≡ (has_report id rs || has_report id ss)
has_report-append id rs ss = any-append (λ r. r.tool_id == id) rs ss

pub has_report-push :
    (id : String) (rs : List ToolReport) (r : ToolReport)
    → has_report id rs ≡ true
    → has_report id (rs ++ r ∷ []) ≡ true
has_report-push id rs r h = ground (arith, has_report-append id rs (r ∷ []), h)

pub has_report-pushed :
    (rs : List ToolReport) (r : ToolReport) → has_report r.tool_id (rs ++ r ∷ []) ≡ true
has_report-pushed rs r = ground (arith, has_report-append r.tool_id rs (r ∷ []), eq_self r.tool_id)

module _ (catalogue : List ToolDef) (outcome : ToolOutcome) where
  report_unrun-tool_id : (id : String) → (report_unrun catalogue outcome id).tool_id ≡ id
  unfolding report_unrun report_new
  report_unrun-tool_id id = elim (Option-cases (find catalogue id)) [
    | inl e ↦ rw (e, report_unrun) refl
    | inr (tool, e) ↦ rw (e, report_unrun) refl
  ]

  next_rest : String → List ToolReport → List ToolReport
  next_rest id rs = if has_report id rs then rs else rs ++ report_unrun catalogue outcome id ∷ []

  pub report_rest-keeps :
      (ids : List String) (rs : List ToolReport) (id : String)
      → has_report id rs ≡ true
      → has_report id (report_rest catalogue outcome ids rs) ≡ true
  unfolding report_rest
  report_rest-keeps [] rs id h = h
  report_rest-keeps (i ∷ ids) rs id h =
      report_rest-keeps ids _ id
        (if-keeps (λ ss. has_report id ss ≡ true) (has_report i rs) h (has_report-push id rs _ h))

  pub report_rest-Covers :
      (ids : List String) (rs : List ToolReport) → Covers ids (report_rest catalogue outcome ids rs)
  unfolding report_rest
  report_rest-Covers [] rs = tt
  report_rest-Covers (i ∷ ids) rs =
      let pushed : has_report i (rs ++ report_unrun catalogue outcome i ∷ []) ≡ true =
        subst (λ j. has_report j (rs ++ report_unrun catalogue outcome i ∷ []) ≡ true)
          (report_unrun-tool_id i) (has_report-pushed rs (report_unrun catalogue outcome i)) in
      (
        report_rest-keeps ids _ i
            (elim (Bool-cases (has_report i rs)) [ inl e ↦ rw e e | inr e ↦ rw e pushed ]),
        report_rest-Covers ids _,
      )

module _ {H : Type 0} (s : Setting H) where
  pub Visit-reports :
      (id : String) {tool_id : String} {rest : List String} {turn : Turn} {l l' : Layer H}
      → Visit s tool_id rest turn l l'
      → has_report id l.reports ≡ true
      → has_report id l'.reports ≡ true
  unfolding abort report_cancelled_rest push_report settle_tool send
  Visit-reports id {rest = rest} {l = l} (cut h) k =
      report_rest-keeps s.catalogue _ rest l.reports id k
  Visit-reports id {rest = rest} {l = l} (cut_started h tool) k =
      report_rest-keeps s.catalogue _ rest l.reports id k
  Visit-reports id (already_skipped e) k = k
  Visit-reports id {l = l} (accounted h r e) k = has_report-push id l.reports r k
  Visit-reports id {turn = turn} {l = l} (finished h tool e outcome produced) k =
      rw ((take_yield-Grew s tool produced turn _).same_reports) (has_report-push id l.reports _ k)

  pub report-IsKept : (id : String) → IsKept s (λ l. has_report id l.reports ≡ true)
  unfolding report_phase_skipped
  report-IsKept id = record {
    ticks = λ l n k. k;
    skips = λ l phase k. report_rest-keeps s.catalogue _ phase.tools l.reports id k;
    visits = λ v e k. Visit-reports id v k;
  }

  pub Covers-kept : (ids : List String) → IsKept s (λ l. Covers ids l.reports)
  Covers-kept ids = record {
    ticks = λ l n k. k;
    skips = λ l phase k. All-map _ _ (λ id. (report-IsKept id).skips l phase) ids k;
    visits = λ v e k. All-map _ _ (λ id. Visit-reports id v) ids k;
  }

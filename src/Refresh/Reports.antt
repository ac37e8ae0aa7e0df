-- ===== src/Refresh/Reports.antt =====
-- Every tool of a chain is reported (`refresh_via_chain` of crates/ozint/src/refresh.rs).
use ozint.Base.{
  ℕ, suc, String, Bool, true, false, ◌≡◌, refl, ap, ◌∙◌, ◌||◌, arith, ◌==◌, string_eq, if-cases,
  Option, none, some, List, [], ◌∷◌, ◌++◌, any-append, All, eq_self, ==_iff,
}
use ozint.Outcome.{ToolReport, ToolOutcome, report_new}
use ozint.Registry.{ToolDef, ToolYield}
use ozint.LayerPlan.{Handoff}
use ozint.Runtime.{has_report}
use ozint.Runtime.Layer.{DispatchOutcome}
use ozint.Refresh.{ChainEntry}
use ozint.Refresh.Chain.{
  World, Replay, Ended, entry_id, cancelled_report, report_entry, report_cancelled_rest, stopped_at,
  add_report, take_answer, take_yield, skip_report, unknown_report, replay_entries,
}

pub has_report-append :
    (id : String) (reports more : List ToolReport)
    → has_report id (reports ++ more) ≡ (has_report id reports || has_report id more)
has_report-append id reports more = any-append (λ (r : ToolReport). r.tool_id == id) reports more

cancelled_report-id : (entry : ChainEntry) → (cancelled_report entry).tool_id ≡ entry_id entry
unfolding cancelled_report report_new entry_id
cancelled_report-id (ChainEntry.run tool) = refl
cancelled_report-id (ChainEntry.skip tool outcome) = refl
cancelled_report-id (ChainEntry.unknown id) = refl

report_entry-kept :
    (id : String) (entry : ChainEntry) (reports : List ToolReport)
    → has_report id reports ≡ true
    → has_report id (report_entry entry reports) ≡ true
unfolding report_entry
report_entry-kept id entry reports h =
    if-cases (λ rs. has_report id rs ≡ true) (has_report (entry_id entry) reports) (λ e. h)
      (λ e. has_report-append id reports (cancelled_report entry ∷ []) ∙ rw h refl)

report_entry-has :
    (entry : ChainEntry) (reports : List ToolReport)
    → has_report (entry_id entry) (report_entry entry reports) ≡ true
unfolding report_entry
report_entry-has entry reports =
    if-cases (λ rs. has_report (entry_id entry) rs ≡ true) (has_report (entry_id entry) reports)
      (λ e. e)
      (λ e.
        has_report-append (entry_id entry) reports (cancelled_report entry ∷ [])
        ∙ ground (
          arith,
          ==_iff (cancelled_report entry).tool_id (entry_id entry),
          cancelled_report-id entry,
        ))

-- A report is never taken back.
report_cancelled_rest-kept :
    (id : String) (rest : List ChainEntry) (reports : List ToolReport)
    → has_report id reports ≡ true
    → has_report id (report_cancelled_rest reports rest) ≡ true
unfolding report_cancelled_rest
report_cancelled_rest-kept id [] reports h = h
report_cancelled_rest-kept id (entry ∷ rest) reports h =
    report_cancelled_rest-kept id rest (report_entry entry reports)
      (report_entry-kept id entry reports h)

report_cancelled_rest-Covers :
    (rest : List ChainEntry) (reports : List ToolReport)
    → All
        (λ (entry : ChainEntry).
          has_report (entry_id entry) (report_cancelled_rest reports rest) ≡ true)
        rest
unfolding report_cancelled_rest
report_cancelled_rest-Covers [] reports = tt
report_cancelled_rest-Covers (entry ∷ rest) reports = (
  report_cancelled_rest-kept (entry_id entry) rest (report_entry entry reports)
      (report_entry-has entry reports),
  report_cancelled_rest-Covers rest (report_entry entry reports),
)

-- The reports of a replay, however it ended.
abbrev pub reports_of : Ended → List ToolReport
reports_of (Ended.aborted replay) = replay.reports
reports_of (Ended.finished replay) = replay.reports

take_yield-reports :
    (tool : ToolDef) (produced : Option ToolYield) (replay : Replay)
    → (take_yield tool produced replay).reports ≡ replay.reports
unfolding take_yield
take_yield-reports tool none replay = refl
take_yield-reports tool (some produced) replay = refl

take_answer-reports :
    (tool : ToolDef) (outcome : ToolOutcome) (produced : Option ToolYield) (elapsed : ℕ)
    (replay : Replay)
    → (take_answer tool outcome produced elapsed replay).reports
      ≡ replay.reports
        ++ (report_new tool.id tool.label outcome elapsed tool.gated tool.method ∷ [])
unfolding take_answer
take_answer-reports tool outcome produced elapsed replay = take_yield-reports tool produced _

take_answer-kept :
    (id : String) (tool : ToolDef) (outcome : ToolOutcome) (produced : Option ToolYield)
    (elapsed : ℕ) (replay : Replay)
    → has_report id replay.reports ≡ true
    → has_report id (take_answer tool outcome produced elapsed replay).reports ≡ true
take_answer-kept id tool outcome produced elapsed replay h =
    ap (has_report id) (take_answer-reports tool outcome produced elapsed replay)
    ∙ has_report-append id replay.reports
        (report_new tool.id tool.label outcome elapsed tool.gated tool.method ∷ [])
    ∙ rw h refl

take_answer-has :
    (tool : ToolDef) (outcome : ToolOutcome) (produced : Option ToolYield) (elapsed : ℕ)
    (replay : Replay)
    → has_report tool.id (take_answer tool outcome produced elapsed replay).reports ≡ true
unfolding report_new
take_answer-has tool outcome produced elapsed replay =
    ap (has_report tool.id) (take_answer-reports tool outcome produced elapsed replay)
    ∙ has_report-append tool.id replay.reports
        (report_new tool.id tool.label outcome elapsed tool.gated tool.method ∷ [])
    ∙ ground (arith, eq_self tool.id)

module _ (world : World) (value : String) (handoff : Handoff) where
  -- What holds after a cancellation and after each answer holds after the run of a tool.
  pub run-cases {κ} :
      (P : Ended → Type κ) (i : ℕ) (tool : ToolDef) (rest : List ChainEntry) (replay : Replay)
      → P (stopped_at (ChainEntry.run tool ∷ rest) replay)
      → ((outcome : ToolOutcome) (produced : Option ToolYield)
          → P (
              replay_entries world value handoff
                (suc i)
                rest
                (take_answer tool outcome produced (world.elapsed_ms i) replay)))
      → P (replay_entries world value handoff i (ChainEntry.run tool ∷ rest) replay)
  unfolding replay_entries
  run-cases P i tool rest replay p f =
      go (world.is_cancelled i) (world.dispatch i tool value handoff)
    where
      go :
          (b : Bool) (d : DispatchOutcome)
          → P (elim b [
            | true ↦ stopped_at (ChainEntry.run tool ∷ rest) replay
            | false ↦ elim d [
              | DispatchOutcome.dispatch_cancelled ↦ stopped_at (ChainEntry.run tool ∷ rest) replay
              | DispatchOutcome.ran outcome produced ↦
                  replay_entries world value handoff
                    (suc i)
                    rest
                    (take_answer tool outcome produced (world.elapsed_ms i) replay)
            ]
          ])
      go true d = p
      go false DispatchOutcome.dispatch_cancelled = p
      go false (DispatchOutcome.ran outcome produced) = f outcome produced

  abbrev IsKept : String → Ended → Type 0
  IsKept id ended = has_report id (reports_of ended) ≡ true

  replay_entries-kept :
      (id : String) (entries : List ChainEntry) (i : ℕ) (replay : Replay)
      → has_report id replay.reports ≡ true
      → IsKept id (replay_entries world value handoff i entries replay)
  unfolding replay_entries add_report stopped_at
  replay_entries-kept id [] i replay h = h
  replay_entries-kept id (ChainEntry.skip tool outcome ∷ rest) i replay h =
      replay_entries-kept id rest (suc i) (add_report (skip_report tool outcome) replay)
        (has_report-append id replay.reports (skip_report tool outcome ∷ []) ∙ rw h refl)
  replay_entries-kept id (ChainEntry.unknown u ∷ rest) i replay h =
      replay_entries-kept id rest (suc i) (add_report (unknown_report u) replay)
        (has_report-append id replay.reports (unknown_report u ∷ []) ∙ rw h refl)
  replay_entries-kept id (ChainEntry.run tool ∷ rest) i replay h =
      run-cases (IsKept id) i tool rest replay
        (report_cancelled_rest-kept id (ChainEntry.run tool ∷ rest) replay.reports h)
        (λ outcome produced.
          replay_entries-kept id rest (suc i)
            (take_answer tool outcome produced (world.elapsed_ms i) replay)
            (take_answer-kept id tool outcome produced (world.elapsed_ms i) replay h))

  abbrev pub Covers : List ChainEntry → Ended → Type 0
  Covers entries ended =
      All (λ (entry : ChainEntry). has_report (entry_id entry) (reports_of ended) ≡ true) entries

  -- Every entry is reported, whether the replay was cancelled or came to its end.
  pub replay_entries-Covers :
      (entries : List ChainEntry) (i : ℕ) (replay : Replay)
      → Covers entries (replay_entries world value handoff i entries replay)
  unfolding replay_entries add_report stopped_at skip_report unknown_report entry_id report_new
  replay_entries-Covers [] i replay = tt
  replay_entries-Covers (ChainEntry.skip tool outcome ∷ rest) i replay = (
    replay_entries-kept tool.id rest (suc i) (add_report (skip_report tool outcome) replay) (
        has_report-append tool.id replay.reports (skip_report tool outcome ∷ [])
        ∙ ground (arith, eq_self tool.id)),
    replay_entries-Covers rest (suc i) (add_report (skip_report tool outcome) replay),
  )
  replay_entries-Covers (ChainEntry.unknown u ∷ rest) i replay = (
    replay_entries-kept u rest (suc i) (add_report (unknown_report u) replay)
        (has_report-append u replay.reports (unknown_report u ∷ []) ∙ ground (arith, eq_self u)),
    replay_entries-Covers rest (suc i) (add_report (unknown_report u) replay),
  )
  replay_entries-Covers (ChainEntry.run tool ∷ rest) i replay =
      run-cases (Covers (ChainEntry.run tool ∷ rest)) i tool rest replay
        (report_cancelled_rest-Covers (ChainEntry.run tool ∷ rest) replay.reports)
        (λ outcome produced. (
          replay_entries-kept tool.id rest (suc i)
              (take_answer tool outcome produced (world.elapsed_ms i) replay)
              (take_answer-has tool outcome produced (world.elapsed_ms i) replay),
          replay_entries-Covers rest (suc i)
              (take_answer tool outcome produced (world.elapsed_ms i) replay),
        ))

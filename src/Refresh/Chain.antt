-- ===== src/Refresh/Chain.antt =====
-- The replay of a chain (`refresh_via_chain` of crates/ozint/src/refresh.rs). What the world answers
-- is a function of the entry's position: the cancel signal, the dispatch and its duration.
use ozint.Base.{
  ℕ, suc, ◌+◌, String, Bool, true, false, ◌&&◌, ◌||◌, if◌then◌else◌, Option, none, some, List, [],
  ◌∷◌, ◌++◌, concat, length,
}
use ozint.Types.{OzSection, JsonObject}
use ozint.Outcome.{ToolOutcome, ToolReport, report_new, is_success, parse_error, cancelled}
use ozint.Registry.{ToolDef, ToolYield}
use ozint.LayerPlan.{Handoff}
use ozint.Runtime.{merge_patch, section_from_rows, has_report}
use ozint.Runtime.Layer.{DispatchOutcome}
use ozint.Refresh.{ChainEntry}

pub record World : Type 0 where
  pub is_cancelled : ℕ → Bool
  pub dispatch : ℕ → ToolDef → String → Handoff → DispatchOutcome
  pub elapsed_ms : ℕ → ℕ
  pub now : ℕ

-- The variables of the loop.
pub record Replay : Type 0 where
  pub reports : List ToolReport
  pub patch : JsonObject
  pub children_ignored : ℕ
  pub sections : List OzSection
  pub lookups : ℕ
  pub cost_cents : ℕ
  pub gated_verdict : Bool

abbrev pub replay_start : Replay
replay_start = record {
  reports = [];
  patch = [];
  children_ignored = 0;
  sections = [];
  lookups = 0;
  cost_cents = 0;
  gated_verdict = false;
}

unfoldable pub entry_id : ChainEntry → String
entry_id (ChainEntry.run tool) = tool.id
entry_id (ChainEntry.skip tool outcome) = tool.id
entry_id (ChainEntry.unknown id) = id

-- What `report_cancelled_rest` says of an entry.
unfoldable pub cancelled_report : ChainEntry → ToolReport
cancelled_report (ChainEntry.run tool) =
    report_new tool.id tool.label cancelled 0 tool.gated tool.method
cancelled_report (ChainEntry.skip tool outcome) =
    report_new tool.id tool.label cancelled 0 tool.gated tool.method
cancelled_report (ChainEntry.unknown id) = report_new id id cancelled 0 false "not dispatched"

unfoldable pub report_entry : ChainEntry → List ToolReport → List ToolReport
unfolding cancelled_report entry_id
report_entry entry reports =
    if has_report (entry_id entry) reports
    then reports
    else reports ++ (cancelled_report entry ∷ [])

unfoldable pub report_cancelled_rest : List ToolReport → List ChainEntry → List ToolReport
unfolding report_entry
report_cancelled_rest reports [] = reports
report_cancelled_rest reports (entry ∷ rest) =
    report_cancelled_rest (report_entry entry reports) rest

unfoldable pub add_report : ToolReport → Replay → Replay
add_report report replay = record replay { reports = replay.reports ++ (report ∷ []) }

section_list : Option OzSection → List OzSection
section_list none = []
section_list (some section) = section ∷ []

-- A patch that is no object changes nothing.
patched : JsonObject → Option JsonObject → JsonObject
patched acc none = acc
patched acc (some patch) = merge_patch acc patch

unfoldable pub take_yield : ToolDef → Option ToolYield → Replay → Replay
unfolding section_list patched
take_yield tool none replay = replay
take_yield tool (some produced) replay = record replay {
  patch = patched replay.patch produced.payload_patch;
  children_ignored = replay.children_ignored + length produced.children;
  sections = replay.sections ++ section_list (section_from_rows tool produced.rows);
}

-- A tool that answered: it is counted, reported, and what it yielded is taken.
unfoldable pub take_answer : ToolDef → ToolOutcome → Option ToolYield → ℕ → Replay → Replay
unfolding take_yield
take_answer tool outcome produced elapsed replay = take_yield tool produced (record replay {
  lookups = replay.lookups + 1;
  cost_cents = replay.cost_cents + tool.cost_cents;
  gated_verdict = replay.gated_verdict || (tool.gated && is_success outcome);
  reports =
      replay.reports ++ (report_new tool.id tool.label outcome elapsed tool.gated tool.method ∷ []);
})

unfoldable pub skip_report : ToolDef → ToolOutcome → ToolReport
skip_report tool outcome = report_new tool.id tool.label outcome 0 tool.gated tool.method

unfoldable pub unknown_report : String → ToolReport
unknown_report id =
    report_new id id
      (parse_error (
        concat (
          "`" ∷ id
          ∷ "` produced this node but is absent from this build's registry — it cannot be re-run"
          ∷ [])))
      0 false "not dispatched"

-- How the loop ended: cancelled, with the reports so far and those of the rest, or at its end.
pub data Ended : Type 0 where
  aborted : Replay → Ended
  finished : Replay → Ended

-- The cancellation, before or within the run of the first of these entries.
unfoldable pub stopped_at : List ChainEntry → Replay → Ended
stopped_at entries replay =
    Ended.aborted (record replay { reports = report_cancelled_rest replay.reports entries })

module _ (world : World) (value : String) (handoff : Handoff) where
  unfoldable pub replay_entries : ℕ → List ChainEntry → Replay → Ended
  unfolding stopped_at add_report skip_report unknown_report take_answer
  replay_entries i [] replay = Ended.finished replay
  replay_entries i (ChainEntry.skip tool outcome ∷ rest) replay =
      replay_entries (suc i) rest (add_report (skip_report tool outcome) replay)
  replay_entries i (ChainEntry.unknown id ∷ rest) replay =
      replay_entries (suc i) rest (add_report (unknown_report id) replay)
  replay_entries i (ChainEntry.run tool ∷ rest) replay =
      let stopped : Ended = stopped_at (ChainEntry.run tool ∷ rest) replay in
      elim (world.is_cancelled i) [
        | true ↦ stopped
        | false ↦ elim (world.dispatch i tool value handoff) [
          | DispatchOutcome.dispatch_cancelled ↦ stopped
          | DispatchOutcome.ran outcome produced ↦
              replay_entries (suc i) rest
                (take_answer tool outcome produced (world.elapsed_ms i) replay)
        ]
      ]

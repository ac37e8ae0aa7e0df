-- ===== src/Runtime.antt =====
-- crates/ozint/src/runtime.rs: the frames of a layer's stream, the accounts of the tools that did
-- not run, and the changes to the stored tree. Runtime/Engine.antt is `fire_layer` itself.
pub mod Tree
pub mod Layer
pub mod Engine
pub mod View
pub mod Yield
pub mod Inputs
pub mod Dedup
pub mod Merge
pub mod Settlement
pub mod Fire
pub mod Replay
pub mod Accounts
pub mod Invariant
pub mod Phases
pub mod Frames
pub mod Ending
pub mod Reported
use ozint.Base.{
  ℕ, zero, suc, ◌+◌, ◌-◌, String, Bool, true, false, not, ◌&&◌, ◌||◌, Option, none, some, List, [],
  ◌∷◌, ◌++◌, map, any, if◌then◌else◌, ◌==◌, Map, get, insert, contains_key, unwrap_or, string_eq,
  max, concat,
}
use ozint.Types.{
  OzType, OzRow, OzSection, OzNode, NodeStatus, Corroboration, JsonObject, Provenance, SectionKind,
  oz_type_eq, same_route_as,
}
use ozint.Outcome.{
  ToolOutcome, ToolReport, SettleKind, report_new, cancelled, skipped_phase_predicate,
  skipped_missing_input,
}
use ozint.Registry.{ToolDef, ChildSeed, find}
use ozint.LayerPlan.{PhaseAcc, Handoff, LayerPhase, ValueStatus, predicate_name, value_status}

-- `LayerEvent`, less its chips and the ids of the investigation.
pub data LayerEvent : Type 0 where
  layer_start : (layer_id parent_node_id : String) (firing max_possible gated : ℕ) → LayerEvent
  tool_start : (layer_id tool_id label : String) (gated : Bool) → LayerEvent
  tool_done : (layer_id : String) (report : ToolReport) → LayerEvent
  parent_payload :
      (layer_id node_id : String) (patch : JsonObject) (sections : List OzSection) → LayerEvent
  node_frame : (layer_id : String) (node : OzNode) → LayerEvent
  already_in_tree :
      (layer_id existing_node_id annotation : String) (found_again_by : Corroboration)
      (paths : Option ℕ)
      → LayerEvent
  layer_settled : (layer_id : String) (new_children : ℕ) (reports : List ToolReport) → LayerEvent
  layer_empty : (layer_id : String) (reports : List ToolReport) → LayerEvent
  layer_degraded : (layer_id : String) (new_children : ℕ) (reports : List ToolReport) → LayerEvent
  layer_failed : (layer_id : String) (reports : List ToolReport) → LayerEvent
  layer_aborted : (layer_id : String) (reports : List ToolReport) → LayerEvent
  summary : (layer_id text : String) (fallback : Bool) → LayerEvent
  error : (layer_id : Option String) (message : String) → LayerEvent

-- `LayerEvent::layer_id`.
unfoldable pub layer_of : LayerEvent → Option String
layer_of (layer_start layer_id p f m g) = some layer_id
layer_of (tool_start layer_id t l g) = some layer_id
layer_of (tool_done layer_id r) = some layer_id
layer_of (parent_payload layer_id n p s) = some layer_id
layer_of (node_frame layer_id n) = some layer_id
layer_of (already_in_tree layer_id e a f p) = some layer_id
layer_of (layer_settled layer_id n r) = some layer_id
layer_of (layer_empty layer_id r) = some layer_id
layer_of (layer_degraded layer_id n r) = some layer_id
layer_of (layer_failed layer_id r) = some layer_id
layer_of (layer_aborted layer_id r) = some layer_id
layer_of (summary layer_id t f) = some layer_id
layer_of (error layer_id m) = layer_id

unfoldable pub is_terminal : LayerEvent → Bool
is_terminal (layer_settled layer_id n r) = true
is_terminal (layer_empty layer_id r) = true
is_terminal (layer_degraded layer_id n r) = true
is_terminal (layer_failed layer_id r) = true
is_terminal (layer_aborted layer_id r) = true
is_terminal _ = false

unfoldable pub terminal_for : SettleKind → String → ℕ → List ToolReport → LayerEvent
terminal_for SettleKind.settled layer_id n reports = layer_settled layer_id n reports
terminal_for SettleKind.empty layer_id n reports = layer_empty layer_id reports
terminal_for SettleKind.degraded layer_id n reports = layer_degraded layer_id n reports
terminal_for SettleKind.failed layer_id n reports = layer_failed layer_id reports
terminal_for SettleKind.aborted layer_id n reports = layer_aborted layer_id reports

unfoldable pub node_status_for : SettleKind → NodeStatus
node_status_for SettleKind.settled = NodeStatus.settled
node_status_for SettleKind.empty = NodeStatus.empty
node_status_for SettleKind.degraded = NodeStatus.degraded
node_status_for SettleKind.failed = NodeStatus.failed
node_status_for SettleKind.aborted = NodeStatus.aborted

unfoldable pub merge_patch : JsonObject → JsonObject → JsonObject
merge_patch acc [] = acc
merge_patch acc ((k, v) ∷ patch) = merge_patch (insert k v acc) patch

-- A row's `source_tool_id.get_or_insert_with`.
stamp : String → OzRow → OzRow
stamp tool_id row = record row { source_tool_id = some (unwrap_or tool_id row.source_tool_id) }

unfoldable pub section_from_rows : ToolDef → List OzRow → Option OzSection
unfolding stamp
section_from_rows tool [] = none
section_from_rows tool (row ∷ rows) = some (record {
  id = tool.id;
  label = tool.label;
  kind = SectionKind.key_value;
  rows = map (stamp tool.id) (row ∷ rows);
})

-- One round of `merge_sections`: the first section with the id, or the end.
unfoldable pub put_section : OzSection → List OzSection → List OzSection
put_section new [] = new ∷ []
put_section new (s ∷ ss) =
    let rest = put_section new ss in if s.id == new.id then new ∷ ss else s ∷ rest

unfoldable pub merge_sections : List OzSection → List OzSection → List OzSection
unfolding put_section
merge_sections existing [] = existing
merge_sections existing (s ∷ incoming) = merge_sections (put_section s existing) incoming

abbrev pub has_report : String → List ToolReport → Bool
has_report tool_id reports = any (λ r. r.tool_id == tool_id) reports

-- The report of a tool that a cancel or a closed phase kept from running.
unfoldable pub report_unrun : List ToolDef → ToolOutcome → String → ToolReport
unfolding report_new
report_unrun catalogue outcome tool_id = elim (find catalogue tool_id) [
  | some tool ↦ report_new tool_id tool.label outcome 0 tool.gated tool.method
  | none ↦ report_new tool_id tool_id outcome 0 false "not dispatched"
]

-- The loop that `report_cancelled_rest` and `report_phase_skipped` share.
unfoldable pub report_rest :
    List ToolDef → ToolOutcome → List String → List ToolReport → List ToolReport
unfolding report_unrun
report_rest catalogue outcome [] reports = reports
report_rest catalogue outcome (id ∷ ids) reports =
    report_rest catalogue outcome ids
      (if has_report id reports then reports else reports ++ report_unrun catalogue outcome id ∷ [])

unfoldable pub report_cancelled_rest :
    List ToolDef → List String → List ToolReport → List ToolReport
unfolding report_rest
report_cancelled_rest catalogue rest reports = report_rest catalogue cancelled rest reports

unfoldable pub report_phase_skipped : List ToolDef → LayerPhase → List ToolReport → List ToolReport
unfolding report_rest
report_phase_skipped catalogue phase reports =
    report_rest catalogue
      (skipped_phase_predicate
        (concat ("phase `" ∷ phase.id ∷ "` did not open: " ∷ predicate_name phase.gate ∷ [])))
      phase.tools reports

missing_reason : String → ValueStatus → String
missing_reason key (ValueStatus.disputed first second) = concat (
    "`" ∷ key ∷ "` is disputed — " ∷ first.0 ∷ " reported `" ∷ first.1 ∷ "`, " ∷ second.0
    ∷ " reported `" ∷ second.1 ∷ "`; this layer will not pick one" ∷ [])
missing_reason key _ =
    concat (
      "no earlier tool in this layer published `" ∷ key ∷ "`, so there was nothing to look up" ∷ [])

-- The loop of `missing_input_for` over the keys that the tool needs.
missing_key : List String → Handoff → PhaseAcc → Option ToolOutcome
unfolding missing_reason
missing_key [] handoff acc = none
missing_key (key ∷ keys) handoff acc =
    let rest = missing_key keys handoff acc in
    if contains_key key handoff
    then rest
    else some (skipped_missing_input key (missing_reason key (value_status acc key)))

unfoldable pub missing_input_for : ToolDef → Handoff → PhaseAcc → Option ToolOutcome
unfolding missing_key
missing_input_for tool handoff acc = missing_key tool.needs_input handoff acc

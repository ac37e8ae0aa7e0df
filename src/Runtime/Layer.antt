-- ===== src/Runtime/Layer.antt =====
-- The state of a layer of crates/ozint/src/runtime.rs, and what one tool's answer does to it. What the
-- world answers while the layer runs (the cancel signal, the scheduler's permit, the tool's
-- dispatch, the clock, a failed insert) is a sequence of turns, one for each tool the loop visits.
use ozint.Base.{
  ℕ, suc, ◌+◌, String, Bool, true, false, not, ◌&&◌, ◌||◌, Option, none, some, List, [], ◌∷◌, ◌++◌,
  any, if◌then◌else◌, string_eq,
}
use ozint.Types.{OzSection, OzNode, JsonObject}
use ozint.Outcome.{ToolOutcome, ToolReport, SettleKind, report_new, is_success, settle_kind}
use ozint.LayerPlan.{PhaseAcc, set_fact, set_flag, set_value}
use ozint.Registry.{ToolDef, ToolYield, ChildSeed}
use ozint.Runtime.{LayerEvent, tool_done, parent_payload, section_from_rows, report_cancelled_rest}
use ozint.Runtime.Tree.{Codec, LayerContext, Tree, emit_child, persist_parent_payload}

-- What the engine needs of the circuit breakers, which Health models.
pub record Breakers (H : Type 0) : Type 0 where
  pub check : ℕ → String → H → Option ToolOutcome × H
  pub record_outcome : ℕ → String → ToolOutcome → H → H

pub data DispatchOutcome : Type 0 where
  ran : (outcome : ToolOutcome) (produced : Option ToolYield) → DispatchOutcome
  dispatch_cancelled : DispatchOutcome

pub record Turn : Type 0 where
  pub is_cancelled : Bool
  pub now : ℕ
  pub refusal : Option ToolOutcome  -- the `Err` of `acquire_cancellable`
  pub dispatched : DispatchOutcome
  pub elapsed_ms : ℕ
  pub failure : OzNode → Option String

pub record Layer (H : Type 0) : Type 0 where
  pub reports : List ToolReport
  pub acc : PhaseAcc
  pub new_children : ℕ
  pub lookups : ℕ
  pub cost_cents : ℕ
  pub aborted : Bool
  pub emitted_parent : Bool
  pub gated_marked : Bool
  pub health : H
  pub tree : Tree
  pub turns : ℕ  -- turns taken
  pub sent : List LayerEvent

-- What does not change while one layer runs.
pub record Setting (H : Type 0) : Type 0 where
  pub breakers : Breakers H
  pub catalogue : List ToolDef
  pub codec : Codec
  pub ctx : LayerContext
  pub world : ℕ → Turn
  pub skipped : List (ToolDef × ToolOutcome)

unfoldable pub gated_verdict : List ToolReport → Bool
gated_verdict reports = any (λ r. r.gated && is_success r.outcome) reports

-- `patch.as_object().is_some_and(|o| !o.is_empty())`.
is_patched : Option JsonObject → Bool
is_patched none = false
is_patched (some []) = false
is_patched (some (_ ∷ _)) = true

patch_of : Option JsonObject → JsonObject
patch_of none = []
patch_of (some patch) = patch

sections_of : Option OzSection → List OzSection
sections_of none = []
sections_of (some section) = section ∷ []

is_empty : List OzSection → Bool
is_empty [] = true
is_empty (_ ∷ _) = false

unfoldable pub post_facts : List (String × ℕ) → PhaseAcc → PhaseAcc
post_facts [] acc = acc
post_facts ((k, v) ∷ facts) acc = post_facts facts (set_fact k v acc)

unfoldable pub post_flags : List (String × Bool) → PhaseAcc → PhaseAcc
post_flags [] acc = acc
post_flags ((k, v) ∷ flags) acc = post_flags flags (set_flag k v acc)

unfoldable pub post_values : String → List (String × String) → PhaseAcc → PhaseAcc
post_values from [] acc = acc
post_values from ((k, v) ∷ values) acc = post_values from values (set_value k v from acc)

-- What a tool's yield posts for the later phases.
unfoldable pub post : ToolDef → ToolYield → PhaseAcc → PhaseAcc
unfolding post_facts post_flags post_values
post tool yield_ acc =
    let posted =
      post_values tool.id yield_.values (post_flags yield_.flags (post_facts yield_.facts acc)) in
    record posted { tools_run = posted.tools_run ++ tool.id ∷ [] }

module _ {H : Type 0} where
  unfoldable pub send : LayerEvent → Layer H → Layer H
  send frame l = record l { sent = l.sent ++ frame ∷ [] }

  unfoldable pub push_report : ToolReport → Layer H → Layer H
  push_report r l = record l { reports = l.reports ++ r ∷ [] }

  -- A tool that is accounted for without being dispatched.
  unfoldable pub refuse : ToolDef → ToolOutcome → Layer H → Layer H
  unfolding push_report
  refuse tool outcome l =
      push_report (report_new tool.id tool.label outcome 0 tool.gated tool.method) l

  unfoldable pub verdict_of : Layer H → SettleKind
  verdict_of l = settle_kind l.reports l.new_children l.aborted

module _ {H : Type 0} (s : Setting H) where
  -- The cancel arms: `position..` of the phase is reported and the loops are left.
  unfoldable pub abort : List String → Layer H → Layer H
  abort rest l = record l {
    aborted = true;
    reports = report_cancelled_rest s.catalogue rest l.reports;
  }

  unfoldable pub send_children : ToolDef → List ChildSeed → Turn → Layer H → Layer H
  unfolding send
  send_children tool [] turn l = l
  send_children tool (seed ∷ seeds) turn l =
      let (is_new, frame, tree) = emit_child s.codec s.ctx tool seed turn.now turn.failure l.tree in
      send_children tool seeds turn (
        send frame (record l {
          tree = tree;
          new_children = (if is_new then suc l.new_children else l.new_children);
        }))

  -- The frame and the write that mark the parent node.
  unfoldable pub mark_parent :
      JsonObject → Bool → List String → List OzSection → Turn → Layer H → Layer H
  unfolding send
  mark_parent patch verdict contributing sections turn l =
      let nodes =
        persist_parent_payload s.codec s.ctx patch verdict contributing sections turn.now
          turn.failure l.tree.nodes in
      send (parent_payload s.ctx.layer_id s.ctx.parent_node_id patch sections) (record l {
        tree = record l.tree { nodes = nodes };
        emitted_parent = true;
        gated_marked = l.gated_marked || verdict;
      })

  unfoldable pub enrich_parent : ToolDef → ToolYield → Turn → Layer H → Layer H
  unfolding is_patched patch_of sections_of is_empty gated_verdict mark_parent
  enrich_parent tool yield_ turn l =
      let sections = sections_of (section_from_rows tool yield_.rows) in
      let patched = is_patched yield_.payload_patch in
      if patched || not (is_empty sections)
      then mark_parent (patch_of yield_.payload_patch) (gated_verdict l.reports)
          (if patched then tool.id ∷ [] else []) sections turn l
      else l

  unfoldable pub take_yield : ToolDef → Option ToolYield → Turn → Layer H → Layer H
  unfolding enrich_parent post send_children
  take_yield tool none turn l = l
  take_yield tool (some yield_) turn l =
      let marked = enrich_parent tool yield_ turn l in
      let grown =
        send_children tool yield_.children turn
          (record marked { acc = post tool yield_ marked.acc }) in
      record grown { acc = record grown.acc { children = grown.new_children } }

  -- From the breaker's sample to the yield.
  unfoldable pub settle_tool : ToolDef → ToolOutcome → Option ToolYield → Turn → Layer H → Layer H
  unfolding send push_report take_yield
  settle_tool tool outcome produced turn l =
      let report = report_new tool.id tool.label outcome turn.elapsed_ms tool.gated tool.method in
      take_yield tool produced turn (
        push_report report (
          send (tool_done s.ctx.layer_id report) (record l {
            lookups = suc l.lookups;
            cost_cents = l.cost_cents + tool.cost_cents;
            health = s.breakers.record_outcome turn.now tool.id outcome l.health;
          })))

-- ===== src/Runtime/Fire.antt =====
-- `fire_layer` of crates/ozint/src/runtime.rs as a whole: the replay of the stored subtree, the opening
-- frames, the reports of the tools that cannot run, the loops and the settlement.
use ozint.Base.{
  ℕ, suc, ◌+◌, String, Bool, true, false, ◌≡◌, refl, Option, none, some, List, [], ◌∷◌, ◌++◌, map,
  any, ◌==◌, string_eq, length, inl, inr, arith,
}
use ozint.Types.{OzNode}
use ozint.Outcome.{ToolOutcome, ToolReport, report_new}
use ozint.LayerPlan.{LayerPlan, acc_default, max_possible, gated_count}
use ozint.Registry.{ToolDef, resolve, is_gated}
use ozint.Health.{ToolHealth, record_outcome}
use ozint.Health.Invariant.{AllSound, check-AllSound, record-AllSound}
use ozint.Runtime.{LayerEvent, layer_start, node_frame, has_report}
use ozint.Runtime.Tree.{Codec, LayerContext, Tree}
use ozint.Runtime.Layer.{Breakers, Turn, Layer, Setting}
use ozint.Runtime.Engine.{run_layer}
use ozint.Runtime.Replay.{Subtree, absent, rooted, split_subtree, split_subtree-ends}

-- A table of breakers on which `check` cannot panic.
pub record SoundHealth : Type 0 where
  pub table : ToolHealth
  pub sound : AllSound table

unfoldable pub sound_breakers : Breakers SoundHealth
sound_breakers = record {
  check = λ now tool_id h.
      let (skip, table, e, sound) = check-AllSound now tool_id h.table h.sound in
      (skip, record { table = table; sound = sound });
  record_outcome = λ now tool_id outcome h. record {
    table = record_outcome now tool_id outcome h.table;
    sound = record-AllSound now tool_id outcome h.table h.sound;
  };
}

-- `replay_subtree`: the node the layer fires on and those below it. `stored` is what the store
-- listed, or `none` where the query failed; the outer `none` is out of fuel.
replayed : Subtree → Option (Option OzNode × List OzNode)
replayed absent = some (none, [])
replayed (rooted root none) = none
replayed (rooted root (some descendants)) = some (some root, descendants)

unfoldable pub replay_subtree : Option (List OzNode) → String → Option (Option OzNode × List OzNode)
unfolding replayed
replay_subtree none parent_node_id = some (none, [])
replay_subtree (some nodes) parent_node_id =
    replayed (split_subtree (length nodes + 2) nodes parent_node_id)

abbrev fired_frame : String → Option OzNode → List LayerEvent
fired_frame layer_id none = []
fired_frame layer_id (some node) = node_frame layer_id node ∷ []

-- The frames before the first tool.
unfoldable pub opening : LayerContext → LayerEvent → Option OzNode × List OzNode → List LayerEvent
opening ctx start (fired_node, descendants) =
    fired_frame ctx.layer_id fired_node ++ start ∷ map (node_frame ctx.layer_id) descendants

unfoldable pub skipped_reports : List (ToolDef × ToolOutcome) → List ToolReport
skipped_reports [] = []
skipped_reports ((tool, outcome) ∷ skipped) =
    report_new tool.id tool.label outcome 0 tool.gated tool.method ∷ skipped_reports skipped

module _ {H : Type 0} (breakers : Breakers H) (catalogue : List ToolDef) (is_set : String → Bool)
    (codec : Codec) (ctx : LayerContext) (world : ℕ → Turn) where
  unfoldable pub setting : Setting H
  setting = record {
    breakers = breakers;
    catalogue = catalogue;
    codec = codec;
    ctx = ctx;
    world = world;
    skipped = (resolve is_set catalogue ctx.oz_type).skipped;
  }

  unfoldable pub start_frame : LayerPlan → LayerEvent
  start_frame plan =
      layer_start ctx.layer_id ctx.parent_node_id
        (length (resolve is_set catalogue ctx.oz_type).runnable) (max_possible plan)
        (gated_count plan (is_gated catalogue))

  unfoldable pub open_layer : LayerPlan → H → Tree → Option OzNode × List OzNode → Layer H
  unfolding setting start_frame
  open_layer plan health tree replay = record {
    reports = skipped_reports setting.skipped;
    acc = acc_default;
    new_children = 0;
    lookups = 0;
    cost_cents = 0;
    aborted = false;
    emitted_parent = false;
    gated_marked = false;
    health = health;
    tree = tree;
    turns = 0;
    sent = opening ctx (start_frame plan) replay;
  }

  unfoldable pub fire_layer : LayerPlan → H → Tree → Option (List OzNode) → Option (Layer H)
  unfolding open_layer
  fire_layer plan health tree stored = elim (replay_subtree stored ctx.parent_node_id) [
    | none ↦ none
    | some replay ↦ run_layer setting (suc (length plan)) plan (open_layer plan health tree replay)
  ]

pub replay_subtree-ends :
    (stored : Option (List OzNode)) (id : String)
    → (replay : Option OzNode × List OzNode) × (replay_subtree stored id ≡ some replay)
unfolding replay_subtree
replay_subtree-ends none id = (_, refl)
replay_subtree-ends (some nodes) id = elim (split_subtree-ends nodes id) [
  | inl e ↦ rw e (_, refl)
  | inr (root, found, e, le) ↦ rw e ((some root, found), refl)
]

pub skipped_reports-Known :
    (skipped : List (ToolDef × ToolOutcome)) (id : String)
    → any (λ p. p.0.id == id) skipped ≡ true
    → has_report id (skipped_reports skipped) ≡ true
unfolding skipped_reports report_new
skipped_reports-Known [] id e = e
skipped_reports-Known ((tool, outcome) ∷ skipped) id e =
    ground (arith, skipped_reports-Known skipped id)

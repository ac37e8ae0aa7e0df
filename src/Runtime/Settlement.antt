-- ===== src/Runtime/Settlement.antt =====
-- What one call of `fire_layer` (crates/ozint/src/runtime.rs) leaves behind.
use ozint.Base.{
  ℕ, suc, String, Bool, true, ◌≡◌, refl, Option, none, some, List, [], ◌∷◌, map, count, string_eq,
  length, All, Bool-cases, ◌⊎◌, inl, inr, arith,
}
use ozint.Types.{OzNode}
use ozint.LayerPlan.{LayerPlan, all_tools}
use ozint.Registry.{ToolDef}
use ozint.Runtime.{LayerEvent, layer_start, node_frame, layer_of, is_terminal}
use ozint.Runtime.Tree.{Codec, LayerContext, Tree}
use ozint.Runtime.Layer.{Breakers, Turn, Layer, Setting}
use ozint.Runtime.Engine.{run_layer}
use ozint.Runtime.Yield.{is_node}
use ozint.Runtime.Ending.{IsSettled, run_layer-IsSettled}
use ozint.Runtime.Frames.{is_tool_start, is_tool_done, IsStream}
use ozint.Runtime.Reported.{Covers}
use ozint.Runtime.Accounts.{run_layer-Covers}
use ozint.Runtime.Fire.{
  opening, start_frame, setting, open_layer, fire_layer, replay_subtree-ends, skipped_reports-Known,
}

-- Frames of the opening: nodes, and the one that starts the layer.
record IsOpening (layer_id : String) (frames : List LayerEvent) : Type 0 where
  no_start : count is_tool_start frames ≡ 0
  no_done : count is_tool_done frames ≡ 0
  no_end : count is_terminal frames ≡ 0
  owned : All (λ frame. layer_of frame ≡ some layer_id) frames

nodes-IsOpening :
    (layer_id : String) (nodes : List OzNode) → IsOpening layer_id (map (node_frame layer_id) nodes)
unfolding is_tool_start is_tool_done is_terminal layer_of
nodes-IsOpening layer_id [] = record { no_start = refl; no_done = refl; no_end = refl; owned = tt }
nodes-IsOpening layer_id (node ∷ nodes) =
    let rest = nodes-IsOpening layer_id nodes in
    record {
      no_start = omega (arith, rest.no_start);
      no_done = omega (arith, rest.no_done);
      no_end = omega (arith, rest.no_end);
      owned = (refl, rest.owned);
    }

opening-IsOpening :
    (ctx : LayerContext) (p : String) (a b c : ℕ) (replay : Option OzNode × List OzNode)
    → IsOpening ctx.layer_id (opening ctx (layer_start ctx.layer_id p a b c) replay)
unfolding opening is_tool_start is_tool_done is_terminal layer_of
opening-IsOpening ctx p a b c (none, nodes) =
    let rest = nodes-IsOpening ctx.layer_id nodes in
    record {
      no_start = omega (arith, rest.no_start);
      no_done = omega (arith, rest.no_done);
      no_end = omega (arith, rest.no_end);
      owned = (refl, rest.owned);
    }
opening-IsOpening ctx p a b c (some node, nodes) =
    let rest = nodes-IsOpening ctx.layer_id nodes in
    record {
      no_start = omega (arith, rest.no_start);
      no_done = omega (arith, rest.no_done);
      no_end = omega (arith, rest.no_end);
      owned = (refl, (refl, rest.owned));
    }

module _ {H : Type 0} (breakers : Breakers H) (catalogue : List ToolDef) (is_set : String → Bool)
    (codec : Codec) (ctx : LayerContext) (world : ℕ → Turn) (plan : LayerPlan) (health : H)
    (tree : Tree) (stored : Option (List OzNode)) where
  replay : Option OzNode × List OzNode
  replay = (replay_subtree-ends stored ctx.parent_node_id).0

  opened : Layer H
  unfolding replay
  opened = open_layer breakers catalogue is_set codec ctx world plan health tree replay

  abbrev conf : Setting H
  conf = setting breakers catalogue is_set codec ctx world

  fire_layer-run :
      {l : Layer H}
      → run_layer conf (suc (length plan)) plan opened ≡ some l
      → fire_layer breakers catalogue is_set codec ctx world plan health tree stored ≡ some l
  unfolding fire_layer opened replay
  fire_layer-run e = rw ((replay_subtree-ends stored ctx.parent_node_id).1, fire_layer) e

  -- The nodes that the opening frames restate.
  unfoldable pub restated : ℕ
  unfolding opened
  restated = count is_node opened.sent

  opened-IsStream : IsStream ctx.layer_id restated opened
  unfolding restated opened open_layer start_frame
  opened-IsStream =
      let o = opening-IsOpening ctx ctx.parent_node_id _ _ _ replay in
      record {
        running = 0;
        at_most_one = omega arith;
        balanced = λ e. refl;
        counts = record {
          done = o.no_done;
          starts = omega (arith, o.no_start);
          nodes = omega arith;
          open_ = o.no_end;
          owned = o.owned;
        };
      }

  -- A layer always settles: its stream ends with its one terminal frame, chosen by `settle_kind`
  -- from the reports, the new children and the cancel; the frames that end a tool are as many as
  -- the lookups; those that start one are as many, or one more if the layer was cancelled; there is
  -- one node frame for each new child and each node restated; and every frame is this layer's.
  pub fire_layer-IsSettled :
      (l : Layer H) × (fire_layer breakers catalogue is_set codec ctx world plan health tree stored
        ≡ some l)
      × IsSettled ctx.layer_id restated l
  unfolding setting opened open_layer
  fire_layer-IsSettled =
      let (l, e, settled) = run_layer-IsSettled conf restated plan opened refl opened-IsStream in
      (l, fire_layer-run e, settled)

  -- Unless it is cancelled, a layer's reports name every tool of its plan, whether it ran, was
  -- refused, was held back with its phase, or is missing from the catalogue.
  pub fire_layer-Covers :
      (l : Layer H) × (fire_layer breakers catalogue is_set codec ctx world plan health tree stored
        ≡ some l)
      × ((l.aborted ≡ true) ⊎ Covers (all_tools plan) l.reports)
  unfolding setting opened open_layer
  fire_layer-Covers =
      let (l, e, covers) =
        run_layer-Covers conf plan opened refl (skipped_reports-Known conf.skipped) in
      (
        l,
        fire_layer-run e,
        elim (Bool-cases l.aborted) [ inl cut ↦ inl cut | inr whole ↦ inr (covers whole) ],
      )

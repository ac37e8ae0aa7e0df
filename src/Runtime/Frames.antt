-- ===== src/Runtime/Frames.antt =====
-- The stream of a layer of crates/ozint/src/runtime.rs: how many frames of each kind it carries.
use ozint.Base.{
  ℕ, suc, ◌+◌, ◌≤◌, String, Bool, true, false, not, ◌≡◌, refl, sym, ◌∙◌, some, List, [], ◌∷◌, ◌++◌,
  count, count-append, All, All-append, string_eq, pair_eq, arith, if-keeps, subst, ◌&&◌,
}
use ozint.Types.{oz_type_eq}
use ozint.Registry.{ToolDef}
use ozint.Outcome.{ToolReport}
use ozint.Runtime.{LayerEvent, tool_start, tool_done, layer_of, is_terminal}
use ozint.Runtime.Layer.{Turn, Layer, Setting, send, push_report, abort, settle_tool, gated_verdict}
use ozint.Runtime.Engine.{reconcile}
use ozint.Runtime.View.{Visit, cut, cut_started, already_skipped, accounted, finished}
use ozint.Runtime.Invariant.{IsKept}
use ozint.Runtime.Yield.{Quiet, Grew, is_node, take_yield-Grew, mark_parent-Grew}

unfoldable pub is_tool_start : LayerEvent → Bool
is_tool_start (tool_start layer_id tool_id label gated) = true
is_tool_start _ = false

unfoldable pub is_tool_done : LayerEvent → Bool
is_tool_done (tool_done layer_id report) = true
is_tool_done _ = false

pub tool_start-Quiet : Quiet is_tool_start
unfolding is_tool_start
tool_start-Quiet = record {
  payload = λ i n patch ss. refl;
  node = λ i n. refl;
  already = λ i e a c paths. refl;
  failed = λ i m. refl;
}

pub tool_done-Quiet : Quiet is_tool_done
unfolding is_tool_done
tool_done-Quiet = record {
  payload = λ i n patch ss. refl;
  node = λ i n. refl;
  already = λ i e a c paths. refl;
  failed = λ i m. refl;
}

pub terminal-Quiet : Quiet is_terminal
unfolding is_terminal
terminal-Quiet = record {
  payload = λ i n patch ss. refl;
  node = λ i n. refl;
  already = λ i e a c paths. refl;
  failed = λ i m. refl;
}

-- The counts that hold of a stream before its terminal frame; `seen` is the number of nodes that it
-- carried when the phases began, and `running` that of the tools started and not done.
pub record Counts (layer_id : String) (seen lookups new_children running : ℕ)
    (sent : List LayerEvent) : Type 0 where
  pub done : count is_tool_done sent ≡ lookups
  pub starts : count is_tool_start sent ≡ lookups + running
  pub nodes : count is_node sent ≡ seen + new_children
  pub open_ : count is_terminal sent ≡ 0
  pub owned : All (λ frame. layer_of frame ≡ some layer_id) sent

-- At most one tool is started and not done, and none unless the layer was cancelled.
pub record IsStream {H : Type 0} (layer_id : String) (seen : ℕ) (l : Layer H) : Type 0 where
  pub running : ℕ
  pub at_most_one : running ≤ 1
  pub balanced : l.aborted ≡ false → running ≡ 0
  pub counts : Counts layer_id seen l.lookups l.new_children running l.sent

module _ {H : Type 0} (s : Setting H) (seen : ℕ) where
  Grew-Counts :
      {running : ℕ} {l l' : Layer H}
      → Grew s.ctx.layer_id l l'
      → Counts s.ctx.layer_id seen l.lookups l.new_children running l.sent
      → Counts s.ctx.layer_id seen l'.lookups l'.new_children running l'.sent
  Grew-Counts {l = l} {l' = l'} g h =
      let starts = g.same_frames is_tool_start tool_start-Quiet in
      let dones = g.same_frames is_tool_done tool_done-Quiet in
      record {
        done = omega (arith, dones, h.done, g.same_lookups);
        starts = omega (arith, starts, h.starts, g.same_lookups);
        nodes = omega (arith, g.new_nodes, h.nodes);
        open_ = g.same_frames is_terminal terminal-Quiet ∙ h.open_;
        owned = g.owned h.owned;
      }

  started-Counts :
      {lookups new_children : ℕ} (tool : ToolDef) (sent : List LayerEvent)
      → Counts s.ctx.layer_id seen lookups new_children 0 sent
      → Counts s.ctx.layer_id seen lookups new_children 1
          (sent ++ tool_start s.ctx.layer_id tool.id tool.label tool.gated ∷ [])
  unfolding layer_of is_tool_start is_tool_done is_terminal is_node
  started-Counts tool sent h =
      let frame = tool_start s.ctx.layer_id tool.id tool.label tool.gated in
      record {
        done = omega (arith, count-append is_tool_done sent (frame ∷ []), h.done);
        starts = omega (arith, count-append is_tool_start sent (frame ∷ []), h.starts);
        nodes = omega (arith, count-append is_node sent (frame ∷ []), h.nodes);
        open_ = omega (arith, count-append is_terminal sent (frame ∷ []), h.open_);
        owned = All-append _ sent (frame ∷ []) h.owned (refl, tt);
      }

  done-Counts :
      {lookups new_children : ℕ} (r : ToolReport) (sent : List LayerEvent)
      → Counts s.ctx.layer_id seen lookups new_children 1 sent
      → Counts s.ctx.layer_id seen
          (suc lookups)
          new_children
          0
          (sent ++ tool_done s.ctx.layer_id r ∷ [])
  unfolding layer_of is_tool_start is_tool_done is_terminal is_node
  done-Counts r sent h =
      let frame = tool_done s.ctx.layer_id r in
      record {
        done = omega (arith, count-append is_tool_done sent (frame ∷ []), h.done);
        starts = omega (arith, count-append is_tool_start sent (frame ∷ []), h.starts);
        nodes = omega (arith, count-append is_node sent (frame ∷ []), h.nodes);
        open_ = omega (arith, count-append is_terminal sent (frame ∷ []), h.open_);
        owned = All-append _ sent (frame ∷ []) h.owned (refl, tt);
      }

  Visit-IsStream :
      {tool_id : String} {rest : List String} {turn : Turn} {l l' : Layer H}
      → Visit s tool_id rest turn l l'
      → l.aborted ≡ false
      → IsStream s.ctx.layer_id seen l
      → IsStream s.ctx.layer_id seen l'
  unfolding abort send push_report settle_tool
  Visit-IsStream (cut h) e i = record {
    running = i.running;
    at_most_one = i.at_most_one;
    balanced = λ k. cc;
    counts = i.counts;
  }
  Visit-IsStream {l = l} (cut_started h tool) e i = record {
    running = 1;
    at_most_one = omega arith;
    balanced = λ k. cc;
    counts = started-Counts tool l.sent (
        subst (λ n. Counts s.ctx.layer_id seen l.lookups l.new_children n l.sent) (i.balanced e)
          i.counts);
  }
  Visit-IsStream (already_skipped k) e i = i
  Visit-IsStream (accounted h r k) e i = record {
    running = i.running;
    at_most_one = i.at_most_one;
    balanced = i.balanced;
    counts = i.counts;
  }
  Visit-IsStream {turn = turn} {l = l} (finished h tool k outcome produced) e i = record {
    running = 0;
    at_most_one = omega arith;
    balanced = λ k. refl;
    counts = Grew-Counts (take_yield-Grew s tool produced turn _) (
        done-Counts _ _ (
          started-Counts tool l.sent (
            subst (λ n. Counts s.ctx.layer_id seen l.lookups l.new_children n l.sent) (i.balanced e)
              i.counts)));
  }

  pub IsStream-IsKept : IsKept s (IsStream s.ctx.layer_id seen)
  IsStream-IsKept = record {
    ticks = λ l n i. record {
      running = i.running;
      at_most_one = i.at_most_one;
      balanced = i.balanced;
      counts = i.counts;
    };
    skips = λ l phase i. record {
      running = i.running;
      at_most_one = i.at_most_one;
      balanced = i.balanced;
      counts = i.counts;
    };
    visits = Visit-IsStream;
  }

  pub reconcile-IsStream :
      (turn : Turn) (l : Layer H)
      → IsStream s.ctx.layer_id seen l
      → IsStream s.ctx.layer_id seen (reconcile s turn l)
  unfolding reconcile
  reconcile-IsStream turn l i =
      let g = mark_parent-Grew s [] true [] [] turn l in
      if-keeps (IsStream s.ctx.layer_id seen)
        ((l.emitted_parent && not l.gated_marked) && gated_verdict l.reports)
        (record {
          running = i.running;
          at_most_one = i.at_most_one;
          balanced = λ e. i.balanced (sym g.same_aborted ∙ e);
          counts = Grew-Counts g i.counts;
        })
        i

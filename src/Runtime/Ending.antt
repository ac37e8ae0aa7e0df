-- ===== src/Runtime/Ending.antt =====
-- The end of the stream of a layer of crates/ozint/src/runtime.rs.
use ozint.Base.{
  ℕ, suc, ◌+◌, ◌≤◌, String, true, false, ◌≡◌, refl, some, List, [], ◌∷◌, ◌++◌, count, count-append,
  All, All-append, string_eq, pair_eq, Bool-cases, inl, inr, arith, ◌⊎◌, length,
}
use ozint.Types.{oz_type_eq}
use ozint.LayerPlan.{LayerPlan}
use ozint.Outcome.{ToolReport, SettleKind, settle_kind}
use ozint.Runtime.{LayerEvent, layer_of, is_terminal, terminal_for}
use ozint.Runtime.Layer.{Layer, Setting, send, verdict_of}
use ozint.Runtime.Engine.{settle, run_layer}
use ozint.Runtime.Phases.{run_layer-Phases}
use ozint.Runtime.Invariant.{Phases-keeps, sweep-keeps}
use ozint.Runtime.Yield.{is_node}
use ozint.Runtime.Frames.{
  is_tool_start, is_tool_done, IsStream, IsStream-IsKept, reconcile-IsStream,
}

-- A finished stream: the frames before the last are as they were, and the last is the terminal one.
pub record IsSettled {H : Type 0} (layer_id : String) (seen : ℕ) (l : Layer H) : Type 0 where
  pub before : List LayerEvent
  pub ends :
      l.sent
      ≡ before
        ++ terminal_for
            (settle_kind l.reports l.new_children l.aborted)
            layer_id
            l.new_children
            l.reports
          ∷ []
  pub only : count is_terminal l.sent ≡ 1
  pub done : count is_tool_done l.sent ≡ l.lookups
  pub starts_low : l.lookups ≤ count is_tool_start l.sent
  pub starts_high : count is_tool_start l.sent ≤ l.lookups + 1
  pub balanced : (l.aborted ≡ true) ⊎ (count is_tool_start l.sent ≡ l.lookups)
  pub nodes : count is_node l.sent ≡ seen + l.new_children
  pub owned : All (λ frame. layer_of frame ≡ some layer_id) l.sent

record IsLast (layer_id : String) (frame : LayerEvent) : Type 0 where
  terminal : is_terminal frame ≡ true
  no_start : is_tool_start frame ≡ false
  no_done : is_tool_done frame ≡ false
  no_node : is_node frame ≡ false
  mine : layer_of frame ≡ some layer_id

terminal_for-IsLast :
    (kind : SettleKind) (layer_id : String) (n : ℕ) (reports : List ToolReport)
    → IsLast layer_id (terminal_for kind layer_id n reports)
unfolding terminal_for is_terminal is_tool_start is_tool_done is_node layer_of
terminal_for-IsLast SettleKind.settled i n rs = record {
  terminal = refl;
  no_start = refl;
  no_done = refl;
  no_node = refl;
  mine = refl;
}
terminal_for-IsLast SettleKind.empty i n rs = record {
  terminal = refl;
  no_start = refl;
  no_done = refl;
  no_node = refl;
  mine = refl;
}
terminal_for-IsLast SettleKind.degraded i n rs = record {
  terminal = refl;
  no_start = refl;
  no_done = refl;
  no_node = refl;
  mine = refl;
}
terminal_for-IsLast SettleKind.failed i n rs = record {
  terminal = refl;
  no_start = refl;
  no_done = refl;
  no_node = refl;
  mine = refl;
}
terminal_for-IsLast SettleKind.aborted i n rs = record {
  terminal = refl;
  no_start = refl;
  no_done = refl;
  no_node = refl;
  mine = refl;
}

module _ {H : Type 0} (s : Setting H) (seen : ℕ) where
  settle-IsSettled :
      (l : Layer H) → IsStream s.ctx.layer_id seen l → IsSettled s.ctx.layer_id seen (settle s l)
  unfolding settle send verdict_of
  settle-IsSettled l i =
      let frame =
        terminal_for (settle_kind l.reports l.new_children l.aborted) s.ctx.layer_id l.new_children
          l.reports in
      let k =
        terminal_for-IsLast (settle_kind l.reports l.new_children l.aborted) s.ctx.layer_id
          l.new_children l.reports in
      let starts = count-append is_tool_start l.sent (frame ∷ []) in
      record {
        before = l.sent;
        ends = refl;
        only =
            ground
              (arith, count-append is_terminal l.sent (frame ∷ []), k.terminal, i.counts.open_);
        done =
            ground (arith, count-append is_tool_done l.sent (frame ∷ []), k.no_done, i.counts.done);
        starts_low = ground (arith, starts, k.no_start, i.counts.starts);
        starts_high = ground (arith, starts, k.no_start, i.counts.starts, i.at_most_one);
        balanced = elim (Bool-cases l.aborted) [
          | inl e ↦ inl e
          | inr e ↦ inr (ground (arith, starts, k.no_start, i.counts.starts, i.balanced e))
        ];
        nodes = ground (arith, count-append is_node l.sent (frame ∷ []), k.no_node, i.counts.nodes);
        owned = All-append _ l.sent (frame ∷ []) i.counts.owned (k.mine, tt);
      }

  pub run_layer-IsSettled :
      (plan : LayerPlan) (l : Layer H)
      → l.aborted ≡ false
      → IsStream s.ctx.layer_id seen l
      → (l' : Layer H) × (run_layer s (suc (length plan)) plan l ≡ some l')
        × IsSettled s.ctx.layer_id seen l'
  run_layer-IsSettled plan l e i =
      let (j, ended, ran_, phases) = run_layer-Phases s plan l in
      let kept =
        Phases-keeps s (IsStream s.ctx.layer_id seen) (IsStream-IsKept s seen) phases e i in
      let swept =
        sweep-keeps s (IsStream s.ctx.layer_id seen) (IsStream-IsKept s seen) plan j ended kept in
      (_, ran_, settle-IsSettled _ (reconcile-IsStream s seen (s.world ended.turns) _ swept))

-- ===== src/Runtime/Yield.antt =====
-- What a tool's yield can change in a layer of crates/ozint/src/runtime.rs, and what it leaves alone.
use ozint.Base.{
  ℕ, suc, ◌+◌, String, Bool, true, false, ◌≡◌, refl, ◌∙◌, Option, none, some, List, [], ◌∷◌, count,
  count-append, All, All-append, if◌then◌else◌, string_eq, pair_eq, Option-cases, if-keeps, inl,
  inr, arith, HasUniqueKeys, insert-HasUniqueKeys,
}
use ozint.Types.{OzNode, OzSection, JsonObject, oz_type_eq}
use ozint.Registry.{ToolDef, ToolYield, ChildSeed}
use ozint.LayerPlan.{PhaseAcc}
use ozint.Visited.{check, insert_new, VisitedSet, VisitedEntry}
use ozint.Runtime.{LayerEvent, parent_payload, node_frame, already_in_tree, error, layer_of}
use ozint.Runtime.Tree.{
  Codec, LayerContext, Tree, emit_child, dedup_key, child_of, corroborate, add_child,
}
use ozint.Runtime.Layer.{
  Turn, Layer, Setting, send, mark_parent, enrich_parent, send_children, take_yield, post,
}

unfoldable pub is_node : LayerEvent → Bool
is_node (node_frame layer_id node) = true
is_node _ = false

-- A class of frames that no yield sends.
pub record Quiet (p : LayerEvent → Bool) : Type 0 where
  pub payload :
      (i n : String) (patch : JsonObject) (ss : List OzSection)
      → p (parent_payload i n patch ss) ≡ false
  pub node : (i : String) (n : OzNode) → p (node_frame i n) ≡ false
  pub already :
      (i e a : String) (c : _) (paths : Option ℕ) → p (already_in_tree i e a c paths) ≡ false
  pub failed : (i : Option String) (m : String) → p (error i m) ≡ false

-- One frame that a yield may send, and whether it is a new node's.
pub record IsYieldFrame (layer_id : String) (is_new : Bool) (frame : LayerEvent) : Type 0 where
  pub counted : is_node frame ≡ is_new
  pub owned : layer_of frame ≡ some layer_id
  pub quiet : (p : LayerEvent → Bool) → Quiet p → p frame ≡ false

insert_new-HasUniqueKeys :
    (t : _) (k : String) (entry : VisitedEntry) (set : VisitedSet)
    → HasUniqueKeys set
    → HasUniqueKeys (insert_new t k entry set).1
unfolding insert_new
insert_new-HasUniqueKeys t k entry set h = ground (arith, insert-HasUniqueKeys (t, k) entry set h)

module _ (codec : Codec) (ctx : LayerContext) where
  pub emit_child-IsYieldFrame :
      (tool : ToolDef) (seed : ChildSeed) (now : ℕ) (failure : OzNode → Option String) (tree : Tree)
      → IsYieldFrame ctx.layer_id
          (emit_child codec ctx tool seed now failure tree).0
          (emit_child codec ctx tool seed now failure tree).1
  unfolding emit_child corroborate add_child is_node layer_of
  emit_child-IsYieldFrame tool seed now failure tree =
      elim (Option-cases
        (check seed.oz_type (dedup_key codec ctx seed.oz_type seed.value) tree.visited)) [
          | inl e ↦ elim (Option-cases (failure (child_of codec ctx tool seed now tree))) [
            | inl f ↦
                rw (e, f, emit_child, add_child)
                  (record { counted = refl; owned = refl; quiet = λ p q. q.node _ _ })
            | inr (m, f) ↦
                rw (e, f, emit_child, add_child)
                  (record { counted = refl; owned = refl; quiet = λ p q. q.failed _ _ })
          ]
          | inr (entry, e) ↦
              rw (e, emit_child)
                (record { counted = refl; owned = refl; quiet = λ p q. q.already _ _ _ _ _ })
        ]

  pub emit_child-HasUniqueKeys :
      (tool : ToolDef) (seed : ChildSeed) (now : ℕ) (failure : OzNode → Option String) (tree : Tree)
      → HasUniqueKeys tree.visited
      → HasUniqueKeys (emit_child codec ctx tool seed now failure tree).2.visited
  unfolding emit_child corroborate add_child
  emit_child-HasUniqueKeys tool seed now failure tree h =
      elim (Option-cases
        (check seed.oz_type (dedup_key codec ctx seed.oz_type seed.value) tree.visited)) [
          | inl e ↦ elim (Option-cases (failure (child_of codec ctx tool seed now tree))) [
            | inl f ↦
                rw (e, f, emit_child, add_child) (insert_new-HasUniqueKeys _ _ _ tree.visited h)
            | inr (m, f) ↦ rw (e, f, emit_child, add_child) h
          ]
          | inr (entry, e) ↦ rw (e, emit_child) h
        ]

pub record Grew {H : Type 0} (layer_id : String) (l l' : Layer H) : Type 0 where
  pub same_reports : l'.reports ≡ l.reports
  pub same_aborted : l'.aborted ≡ l.aborted
  pub same_lookups : l'.lookups ≡ l.lookups
  pub same_frames : (p : LayerEvent → Bool) → Quiet p → count p l'.sent ≡ count p l.sent
  pub new_nodes : count is_node l'.sent + l.new_children ≡ count is_node l.sent + l'.new_children
  pub owned :
      All (λ frame. layer_of frame ≡ some layer_id) l.sent
      → All (λ frame. layer_of frame ≡ some layer_id) l'.sent
  pub unique : HasUniqueKeys l.tree.visited → HasUniqueKeys l'.tree.visited

Grew-refl : {H : Type 0} {i : String} (l : Layer H) → Grew i l l
Grew-refl l = record {
  same_reports = refl;
  same_aborted = refl;
  same_lookups = refl;
  same_frames = λ p q. refl;
  new_nodes = refl;
  owned = λ h. h;
  unique = λ h. h;
}

Grew-trans : {H : Type 0} {i : String} {k l m : Layer H} → Grew i k l → Grew i l m → Grew i k m
Grew-trans a b = record {
  same_reports = b.same_reports ∙ a.same_reports;
  same_aborted = b.same_aborted ∙ a.same_aborted;
  same_lookups = b.same_lookups ∙ a.same_lookups;
  same_frames = λ p q. b.same_frames p q ∙ a.same_frames p q;
  new_nodes = omega (arith, a.new_nodes, b.new_nodes);
  owned = λ h. b.owned (a.owned h);
  unique = λ h. b.unique (a.unique h);
}

-- Adding one frame of a yield.
Grew-send :
    {H : Type 0} {i : String} {is_new : Bool} {frame : LayerEvent}
    → IsYieldFrame i is_new frame
    → (l : Layer H) (tree : Tree) → (HasUniqueKeys l.tree.visited → HasUniqueKeys tree.visited)
    → Grew i l (
        send frame (record l {
          tree = tree;
          new_children = (if is_new then suc l.new_children else l.new_children);
        }))
unfolding send
Grew-send {frame = frame} f l tree u = record {
  same_reports = refl;
  same_aborted = refl;
  same_lookups = refl;
  same_frames = λ p q. ground (arith, count-append p l.sent (frame ∷ []), f.quiet p q);
  new_nodes = ground (arith, count-append is_node l.sent (frame ∷ []), f.counted);
  owned = λ h. All-append _ l.sent (frame ∷ []) h (f.owned, tt);
  unique = u;
}

module _ {H : Type 0} (s : Setting H) where
  send_children-Grew :
      (tool : ToolDef) (seeds : List ChildSeed) (turn : Turn) (l : Layer H)
      → Grew s.ctx.layer_id l (send_children s tool seeds turn l)
  unfolding send_children
  send_children-Grew tool [] turn l = Grew-refl l
  send_children-Grew tool (seed ∷ seeds) turn l =
      Grew-trans
        (Grew-send (emit_child-IsYieldFrame s.codec s.ctx tool seed turn.now turn.failure l.tree) l
          _ (emit_child-HasUniqueKeys s.codec s.ctx tool seed turn.now turn.failure l.tree))
        (send_children-Grew tool seeds turn _)

  pub mark_parent-Grew :
      (patch : _) (verdict : Bool) (contributing : List String) (sections : List OzSection)
      (turn : Turn) (l : Layer H)
      → Grew s.ctx.layer_id l (mark_parent s patch verdict contributing sections turn l)
  unfolding mark_parent send layer_of is_node
  mark_parent-Grew patch verdict contributing sections turn l =
      let frame = parent_payload s.ctx.layer_id s.ctx.parent_node_id patch sections in
      record {
        same_reports = refl;
        same_aborted = refl;
        same_lookups = refl;
        same_frames = λ p q. ground (
          arith,
          count-append p l.sent (frame ∷ []),
          q.payload s.ctx.layer_id s.ctx.parent_node_id patch sections,
        );
        new_nodes = omega (arith, count-append is_node l.sent (frame ∷ []));
        owned = λ h. All-append _ l.sent (frame ∷ []) h (refl, tt);
        unique = λ h. h;
      }

  enrich_parent-Grew :
      (tool : ToolDef) (y : ToolYield) (turn : Turn) (l : Layer H)
      → Grew s.ctx.layer_id l (enrich_parent s tool y turn l)
  unfolding enrich_parent
  enrich_parent-Grew tool y turn l =
      if-keeps (Grew s.ctx.layer_id l) _ (mark_parent-Grew _ _ _ _ turn l) (Grew-refl l)

  post_acc-Grew : (acc : PhaseAcc) (l : Layer H) → Grew s.ctx.layer_id l (record l { acc = acc })
  post_acc-Grew acc l = record {
    same_reports = refl;
    same_aborted = refl;
    same_lookups = refl;
    same_frames = λ p q. refl;
    new_nodes = refl;
    owned = λ h. h;
    unique = λ h. h;
  }

  pub take_yield-Grew :
      (tool : ToolDef) (produced : Option ToolYield) (turn : Turn) (l : Layer H)
      → Grew s.ctx.layer_id l (take_yield s tool produced turn l)
  unfolding take_yield
  take_yield-Grew tool none turn l = Grew-refl l
  take_yield-Grew tool (some y) turn l =
      let marked = enrich_parent s tool y turn l in
      let posted = record marked { acc = post tool y marked.acc } in
      Grew-trans (enrich_parent-Grew tool y turn l) (
        Grew-trans (post_acc-Grew (post tool y marked.acc) marked) (
          Grew-trans (send_children-Grew tool y.children turn posted)
            (post_acc-Grew _ (send_children s tool y.children turn posted))))

-- ===== src/Runtime/Dedup.antt =====
-- The visited set under `emit_child` of crates/ozint/src/runtime.rs.
use ozint.Base.{
  ℕ, String, false, ◌≡◌, refl, Option, none, some, string_eq, pair_eq, get-insert, ==_iff,
  Option-cases, inl, inr, arith,
}
use ozint.Types.{OzType, OzNode, oz_type_eq}
use ozint.Visited.{VisitedSet, VisitedEntry, check, insert_new}
use ozint.Registry.{ToolDef, ChildSeed}
use ozint.Runtime.Tree.{
  Codec, LayerContext, Tree, dedup_key, child_of, visited_entry, corroborate, add_child, emit_child,
}

check-insert_new_kept :
    (t u : OzType) (k j : String) (new : VisitedEntry) (set : VisitedSet) {entry : VisitedEntry}
    → check t k set ≡ some entry
    → check t k (insert_new u j new set).1 ≡ some entry
unfolding check insert_new
check-insert_new_kept t u k j new set {entry} e =
    ground (arith, get-insert (u, j) (t, k) new set, ==_iff {A = OzType × String} (u, j) (t, k), e)

check-insert_new-some :
    (t : OzType) (k : String) (new : VisitedEntry) (set : VisitedSet)
    → check t k set ≡ none
    → check t k (insert_new t k new set).1 ≡ some new
unfolding check insert_new
check-insert_new-some t k new set e =
    ground (arith, get-insert (t, k) (t, k) new set, ==_iff {A = OzType × String} (t, k) (t, k), e)

module _ (codec : Codec) (ctx : LayerContext) where
  -- A value that the visited set holds keeps pointing at the same node when any other child is
  -- emitted.
  pub emit_child-check :
      (t : OzType) (k : String) (tool : ToolDef) (seed : ChildSeed) (now : ℕ)
      (failure : OzNode → Option String) (tree : Tree) {entry : VisitedEntry}
      → check t k tree.visited ≡ some entry
      → check t k (emit_child codec ctx tool seed now failure tree).2.visited ≡ some entry
  unfolding emit_child corroborate add_child
  emit_child-check t k tool seed now failure tree {entry} h =
      elim (Option-cases
        (check seed.oz_type (dedup_key codec ctx seed.oz_type seed.value) tree.visited)) [
          | inl e ↦ elim (Option-cases (failure (child_of codec ctx tool seed now tree))) [
            | inl f ↦
                rw (e, f, emit_child, add_child) (check-insert_new_kept t _ k _ _ tree.visited h)
            | inr (m, f) ↦ rw (e, f, emit_child, add_child) h
          ]
          | inr (old, e) ↦ rw (e, emit_child) h
        ]

  -- Unless the store failed, a value just emitted is in the tree.
  emit_child-known :
      (tool : ToolDef) (seed : ChildSeed) (now : ℕ) (failure : OzNode → Option String) (tree : Tree)
      → failure (child_of codec ctx tool seed now tree) ≡ none
      → (entry : VisitedEntry) × (check seed.oz_type
            (dedup_key codec ctx seed.oz_type seed.value)
            (emit_child codec ctx tool seed now failure tree).2.visited
          ≡ some entry)
  unfolding emit_child corroborate add_child child_of
  emit_child-known tool seed now failure tree f =
      elim (Option-cases
        (check seed.oz_type (dedup_key codec ctx seed.oz_type seed.value) tree.visited)) [
          | inl e ↦ (
            visited_entry codec ctx (child_of codec ctx tool seed now tree),
            rw (e, f, emit_child, add_child)
                (check-insert_new-some seed.oz_type _ _ tree.visited e),
          )
          | inr (old, e) ↦ (old, rw (e, emit_child) e)
        ]

  emit_child-held :
      (tool : ToolDef) (seed : ChildSeed) (now : ℕ) (failure : OzNode → Option String) (tree : Tree)
      {entry : VisitedEntry}
      → check seed.oz_type (dedup_key codec ctx seed.oz_type seed.value) tree.visited ≡ some entry
      → ((emit_child codec ctx tool seed now failure tree).0 ≡ false)
        × ((emit_child codec ctx tool seed now failure tree).2.minted ≡ tree.minted)
  unfolding emit_child corroborate
  emit_child-held tool seed now failure tree e = rw (e, emit_child) (refl, refl)

  -- A value is given one node: unless the store failed on it, a value of the same type and dedup
  -- key that is emitted again right after, by any tool, is found in the tree and adds none.
  pub emit_child-once :
      (tool tool' : ToolDef) (seed seed' : ChildSeed) (now now' : ℕ)
      (failure failure' : OzNode → Option String) (tree : Tree)
      → failure (child_of codec ctx tool seed now tree) ≡ none
      → seed'.oz_type ≡ seed.oz_type
      → dedup_key codec ctx seed'.oz_type seed'.value ≡ dedup_key codec ctx seed.oz_type seed.value
      → ((emit_child codec ctx tool' seed' now' failure'
            (emit_child codec ctx tool seed now failure tree).2).0
          ≡ false)
        × ((emit_child codec ctx tool' seed' now' failure'
              (emit_child codec ctx tool seed now failure tree).2).2.minted
            ≡ (emit_child codec ctx tool seed now failure tree).2.minted)
  emit_child-once tool tool' seed seed' now now' failure failure' tree f t k =
      let (entry, e) = emit_child-known tool seed now failure tree f in
      let tree' = (emit_child codec ctx tool seed now failure tree).2 in
      let found : check seed'.oz_type (dedup_key codec ctx seed'.oz_type seed'.value) tree'.visited
          ≡ some entry =
        rw (k, t) e in
      emit_child-held tool' seed' now' failure' tree' found

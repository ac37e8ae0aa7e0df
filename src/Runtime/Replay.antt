-- ===== src/Runtime/Replay.antt =====
-- The replay of a stored subtree (`split_subtree` of crates/ozint/src/runtime.rs): the walk is on
-- fuel, and `none` is out of fuel.
use ozint.Base.{
  ℕ, zero, suc, ◌+◌, ◌≤◌, ◌<◌, String, ◌≡◌, refl, sym, ap, subst, Option, none, some, List, [], ◌∷◌,
  ◌++◌, map, if◌then◌else◌, ◌==◌, Map, get, insert, remove, unwrap_or, string_eq, leb, length,
  length-append, if-keeps, ◌∙◌, ◌⊎◌, Option-cases, Bool-cases, inl, inr, arith,
}
use ozint.Types.{OzNode}

abbrev pub Siblings : Type 0
Siblings = Map String (List OzNode)

-- `by_parent.entry(parent_id).or_default().push(node)`, for a node that has a parent.
group : Option String → OzNode → Siblings → Siblings
group none node by_parent = by_parent
group (some parent_id) node by_parent =
    insert parent_id (unwrap_or [] (get parent_id by_parent) ++ node ∷ []) by_parent

-- The first loop: the node with the root's id, and the others by their parent.
unfoldable pub split_nodes :
    String → List OzNode → Option OzNode × Siblings → Option OzNode × Siblings
unfolding group
split_nodes root_id [] found = found
split_nodes root_id (node ∷ nodes) (root, by_parent) = split_nodes root_id nodes (
    if node.id == root_id
    then (some node, by_parent)
    else (root, group node.parent_id node by_parent))

-- `sort_by_key(|n| n.ordinal)`, which is stable.
insert_sorted : OzNode → List OzNode → List OzNode
insert_sorted node [] = node ∷ []
insert_sorted node (n ∷ ns) =
    let rest = insert_sorted node ns in
    if leb node.ordinal n.ordinal then node ∷ n ∷ ns else n ∷ rest

unfoldable pub sort_by_ordinal : List OzNode → List OzNode
unfolding insert_sorted
sort_by_ordinal [] = []
sort_by_ordinal (n ∷ ns) = insert_sorted n (sort_by_ordinal ns)

unfoldable pub sort_siblings : Siblings → Siblings
unfolding sort_by_ordinal
sort_siblings [] = []
sort_siblings ((k, ns) ∷ m) = (k, sort_by_ordinal ns) ∷ sort_siblings m

unfoldable pub walk : ℕ → List String → Siblings → List OzNode → Option (List OzNode)
walk zero queue by_parent out = none
walk (suc fuel) [] by_parent out = some out
walk (suc fuel) (id ∷ queue) by_parent out = elim (get id by_parent) [
  | none ↦ walk fuel queue by_parent out
  | some children ↦
      walk fuel (queue ++ map (λ n. n.id) children) (remove id by_parent) (out ++ children)
]

pub data Subtree : Type 0 where
  absent : Subtree
  rooted : (root : OzNode) (descendants : Option (List OzNode)) → Subtree

subtree_of : ℕ → Option OzNode → Siblings → Subtree
unfolding walk sort_siblings
subtree_of fuel none by_parent = absent
subtree_of fuel (some root) by_parent =
    rooted root (walk fuel (root.id ∷ []) (sort_siblings by_parent) [])

unfoldable pub split_subtree : ℕ → List OzNode → String → Subtree
unfolding split_nodes subtree_of
split_subtree fuel nodes root_id =
    let (root, by_parent) = split_nodes root_id nodes (none, []) in subtree_of fuel root by_parent

-- The nodes still held by a table of siblings.
abbrev pub total : Siblings → ℕ
total [] = 0
total ((k, ns) ∷ m) = length ns + total m

total-remove_le : (id : String) (m : Siblings) → total (remove id m) ≤ total m
unfolding remove
total-remove_le id [] = omega arith
total-remove_le id ((k, ns) ∷ m) = ground (arith, total-remove_le id m)

total-remove :
    (id : String) (m : Siblings) {ns : List OzNode}
    → get id m ≡ some ns
    → total (remove id m) + length ns ≤ total m
unfolding get remove
total-remove id [] e = cc
total-remove id ((k, ms) ∷ m) {ns} e = elim (Bool-cases (k == id)) [
  | inl same ↦
      let found : some ms ≡ some ns = sym (unfold get in rw same refl) ∙ e in
      let lengths : length ms ≡ length ns = ap (λ o. length (unwrap_or [] o)) found in
      rw same (omega (arith, total-remove_le id m, lengths))
  | inr other ↦
      let found : get id m ≡ some ns = sym (unfold get in rw other refl) ∙ e in
      rw other (omega (arith, total-remove id m found))
]

total-insert :
    (id : String) (new : List OzNode) (m : Siblings)
    → total (insert id new m) + length (unwrap_or [] (get id m)) ≤ length new + total m
unfolding get insert
total-insert id new [] = omega arith
total-insert id new ((k, ms) ∷ m) = elim (Bool-cases (k == id)) [
  | inl same ↦ rw same (omega arith)
  | inr other ↦ rw other (omega (arith, total-insert id new m))
]

total-push :
    (id : String) (node : OzNode) (m : Siblings)
    → total (insert id (unwrap_or [] (get id m) ++ node ∷ []) m) ≤ suc (total m)
total-push id node m =
    let old = unwrap_or [] (get id m) in
    omega (arith, total-insert id (old ++ node ∷ []) m, length-append old (node ∷ []))

total-group :
    (parent : Option String) (node : OzNode) (m : Siblings)
    → total (group parent node m) ≤ suc (total m)
unfolding group
total-group none node m = omega arith
total-group (some parent) node m = total-push parent node m

total-split_nodes :
    (root_id : String) (nodes : List OzNode) (found : Option OzNode × Siblings)
    → total (split_nodes root_id nodes found).1 ≤ length nodes + total found.1
unfolding split_nodes
total-split_nodes root_id [] found = omega arith
total-split_nodes root_id (node ∷ nodes) (root, m) =
    let next : Option OzNode × Siblings =
      if node.id == root_id then (some node, m) else (root, group node.parent_id node m) in
    let one : total next.1 ≤ suc (total m) =
      if-keeps (λ (r : Option OzNode × Siblings). total r.1 ≤ suc (total m)) (node.id == root_id)
        (omega arith) (total-group node.parent_id node m) in
    omega (arith, total-split_nodes root_id nodes next, one)

length-insert_sorted :
    (node : OzNode) (ns : List OzNode) → length (insert_sorted node ns) ≡ suc (length ns)
unfolding insert_sorted
length-insert_sorted node [] = refl
length-insert_sorted node (n ∷ ns) = ground (arith, length-insert_sorted node ns)

length-sort : (ns : List OzNode) → length (sort_by_ordinal ns) ≡ length ns
unfolding sort_by_ordinal
length-sort [] = refl
length-sort (n ∷ ns) = length-insert_sorted n (sort_by_ordinal ns) ∙ ap suc (length-sort ns)

total-sort : (m : Siblings) → total (sort_siblings m) ≡ total m
unfolding sort_siblings
total-sort [] = refl
total-sort ((k, ns) ∷ m) = omega (arith, length-sort ns, total-sort m)

length-map_id : (ns : List OzNode) → length (map (λ n. n.id) ns) ≡ length ns
length-map_id [] = refl
length-map_id (n ∷ ns) = ap suc (length-map_id ns)

-- The walk ends, whatever cycles the parents make: it pops each queued id once, and takes each
-- group of children at most once.
walk-ends :
    (fuel : ℕ) (queue : List String) (m : Siblings) (out : List OzNode)
    → length queue + total m < fuel
    → (found : List OzNode) × (walk fuel queue m out ≡ some found)
      × (length found ≤ length out + total m)
unfolding walk
walk-ends zero queue m out enough = absurd (omega (arith, enough))
walk-ends (suc fuel) [] m out enough = (out, refl, omega arith)
walk-ends (suc fuel) (id ∷ queue) m out enough = elim (Option-cases (get id m)) [
  | inl e ↦
      let (found, k, le) = walk-ends fuel queue m out (omega (arith, enough)) in
      (found, rw (e, walk) k, le)
  | inr (children, e) ↦
      let held = total-remove id m e in
      let queued = length-append queue (map (λ n. n.id) children) in
      let (found, k, le) =
        walk-ends fuel (queue ++ map (λ n. n.id) children) (remove id m) (out ++ children)
          (omega (arith, enough, held, queued, length-map_id children)) in
      (found, rw (e, walk) k, omega (arith, le, held, length-append out children))
]

-- When the root is stored, the walk ends and restates at most as many nodes as are stored: two
-- units of fuel more than the number of nodes are enough, whatever cycles the parents make.
pub split_subtree-ends :
    (nodes : List OzNode) (root_id : String)
    → (split_subtree (length nodes + 2) nodes root_id ≡ absent)
      ⊎ ((root : OzNode) × (found : List OzNode) × (split_subtree (length nodes + 2) nodes root_id
            ≡ rooted root (some found))
          × (length found ≤ length nodes))
unfolding split_subtree subtree_of
split_subtree-ends nodes root_id = go (split_nodes root_id nodes (none, [])) refl
  where
    go :
        (r : Option OzNode × Siblings)
        → split_nodes root_id nodes (none, []) ≡ r
        → (subtree_of (length nodes + 2) r.0 r.1 ≡ absent)
          ⊎ ((root : OzNode) × (found : List OzNode) × (subtree_of (length nodes + 2) r.0 r.1
                ≡ rooted root (some found))
              × (length found ≤ length nodes))
    go (none, m) e = inl refl
    go (some root, m) e =
        let held : total m ≤ length nodes =
          subst (λ (r : Option OzNode × Siblings). total r.1 ≤ length nodes) e
            (omega (arith, total-split_nodes root_id nodes (none, []))) in
        let (found, k, le) =
          walk-ends (length nodes + 2) (root.id ∷ []) (sort_siblings m) []
            (omega (arith, held, total-sort m)) in
        inr (root, found, ap (rooted root) k, omega (arith, held, total-sort m, le))

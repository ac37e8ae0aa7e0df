-- ===== src/Visited/Laws.antt =====
-- What `VisitedSet` of visited.rs remembers.
use ozint.Base.{
  String, not, ◌&&◌, ◌≡◌, refl, ◌∙◌, Option, none, some, List, [], ◌∷◌, arith, if◌then◌else◌, ◌==◌,
  any, get, insert, get-insert, get-retain, HasUniqueKeys, string_eq, pair_eq, is_some,
}
use text.Mathlib.TextEquality.{eq_iff}
use ozint.Types.{OzType, oz_type_eq, oz_type_beq_iff, OzNode}
use ozint.Visited.{
  VisitedEntry, VisitedSet, visited_new, entry_of, add_nodes, from_nodes, check, insert_new,
  clear_subtree,
}

-- The last node of a list with this type and key.
unfoldable pub last_with : OzType → String → List OzNode → Option OzNode
last_with t k [] = none
last_with t k (node ∷ nodes) = elim (last_with t k nodes) [
  | some later ↦ some later
  | none ↦ if (node.oz_type == t) && (node.dedup_key == k) then some node else none
]

check-add_nodes :
    (t : OzType) (k : String) (nodes : List OzNode) (set : VisitedSet)
    → check t k (add_nodes nodes set)
      ≡ elim (last_with t k nodes) [ some node ↦ some (entry_of node) | none ↦ check t k set ]
unfolding check add_nodes last_with
check-add_nodes t k [] set = refl
check-add_nodes t k (node ∷ nodes) set = ground (
  arith,
  check-add_nodes t k nodes (insert (node.oz_type, node.dedup_key) (entry_of node) set),
  get-insert (node.oz_type, node.dedup_key) (t, k) (entry_of node) set,
)

-- A set rebuilt from stored nodes finds a value exactly when a node holds it, and points at the
-- last such node.
pub check-from_nodes :
    (t : OzType) (k : String) (nodes : List OzNode)
    → check t k (from_nodes nodes)
      ≡ elim (last_with t k nodes) [ some node ↦ some (entry_of node) | none ↦ none ]
unfolding from_nodes
check-from_nodes t k nodes = check-add_nodes t k nodes visited_new ∙ (unfold check get in refl)

-- `insert` claims a key only if nobody holds it; the first entry stays, and no other key changes.
pub check-insert_new :
    (t u : OzType) (k j : String) (entry : VisitedEntry) (set : VisitedSet)
    → ((insert_new t k entry set).0 ≡ not (is_some (check t k set)))
      × (check u j (insert_new t k entry set).1 ≡ elim (check u j set) [
        | some held ↦ some held
        | none ↦ if (t == u) && (k == j) then some entry else none
      ])
unfolding check insert_new
check-insert_new t u k j entry set =
    ground (arith, get-insert (t, k) (u, j) entry set, oz_type_beq_iff t u, eq_iff k j)

-- In a set with unique keys, no entry of a cleared node is left, and every other entry stays.
pub check-clear_subtree :
    (t : OzType) (k : String) (ids : List String) (set : VisitedSet)
    → HasUniqueKeys set
    → check t k (clear_subtree ids set) ≡ elim (check t k set) [
      | none ↦ none
      | some held ↦ if any (λ i. i == held.node_id) ids then none else some held
    ]
unfolding check clear_subtree
check-clear_subtree t k [] set h = ground arith
check-clear_subtree t k (id ∷ ids) set h = ground (
  arith,
  get-retain (λ (e : VisitedEntry). not (any (λ i. i == e.node_id) (id ∷ ids))) (t, k) set h,
)

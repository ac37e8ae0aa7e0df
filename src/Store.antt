-- ===== src/Store.antt =====
-- crates/ozint/src/store.rs: the node table, by node id, and the operations that a layer uses on it.
-- A query's own failure is the caller's case: here each operation is what it does when SQLite runs it.
pub mod Edits
pub mod Routes
use ozint.Base.{
  ℕ, suc, String, Bool, true, false, not, ◌&&◌, Option, none, some, List, [], ◌∷◌, ◌++◌, any,
  length, max, if◌then◌else◌, ◌==◌, Map, get, insert, string_eq,
}
use ozint.Types.{OzNode, Corroboration, NodeStatus, same_route_as}

abbrev pub NodeTable : Type 0
NodeTable = Map String OzNode

-- What the upsert leaves in the row: the owning investigation is never shifted.
upserted : Option OzNode → OzNode → OzNode
upserted none node = node
upserted (some old) node = record node { investigation_id = old.investigation_id }

unfoldable pub insert_node : OzNode → NodeTable → NodeTable
unfolding upserted
insert_node node table = insert node.id (upserted (get node.id table) node) table

unfoldable pub get_node : String → NodeTable → Option OzNode
get_node id table = get id table

abbrev pub is_parent : String → Option String → Bool
is_parent id none = false
is_parent id (some p) = p == id

-- `COALESCE(MAX(ordinal), -1) + 1` over the children of one node.
unfoldable pub next_ordinal : String → String → NodeTable → ℕ
next_ordinal investigation_id parent_id [] = 0
next_ordinal investigation_id parent_id ((k, node) ∷ table) =
    let rest = next_ordinal investigation_id parent_id table in
    if (node.investigation_id == investigation_id) && is_parent parent_id node.parent_id
    then max (suc node.ordinal) rest
    else rest

-- The list that `record_corroboration` writes back.
routes : OzNode → Corroboration → List Corroboration
unfolding same_route_as
routes node c =
    let is_first_route =
      (node.provenance.source_tool_id == c.tool_id)
      && is_parent c.parent_node_id node.provenance.found_via_parent_id in
    let already_listed =
      any (λ d. same_route_as d c.tool_id c.parent_node_id) node.corroborations in
    if not is_first_route && not already_listed
    then node.corroborations ++ c ∷ []
    else node.corroborations

unfoldable pub record_corroboration :
    String → Corroboration → String → NodeTable → Option ℕ × NodeTable
unfolding routes
record_corroboration id c annotation table = elim (get id table) [
  | none ↦ (none, table)
  | some node ↦
      let list = routes node c in
      (
        some (suc (length list)),
        insert id (record node { corroborations = list; already_in_tree = some annotation }) table,
      )
]

unfoldable pub set_node_status : String → NodeStatus → NodeTable → Bool × NodeTable
set_node_status id status table = elim (get id table) [
  | none ↦ (false, table)
  | some node ↦ (true, insert id (record node { status = status }) table)
]

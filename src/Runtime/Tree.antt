-- ===== src/Runtime/Tree.antt =====
-- What one tool's yield does to the stored tree: a child (`emit_child`) and the node that the layer
-- fired on (`persist_parent_payload`). Parameters: `normalize` of normalize.rs, the tag that serde
-- gives a type, `to_string` for a depth, `retype` for serde's reading of a merged payload, the uuids.
use ozint.Base.{
  ℕ, suc, ◌+◌, String, Bool, true, false, ◌||◌, Option, none, some, List, [], ◌∷◌, ◌++◌, any,
  if◌then◌else◌, ◌==◌, string_eq, concat,
}
use ozint.Types.{OzType, OzSection, OzNode, NodeStatus, Corroboration, JsonObject}
use ozint.Visited.{VisitedSet, VisitedEntry, check, insert_new}
use ozint.Store.{NodeTable, insert_node, get_node, next_ordinal, record_corroboration}
use ozint.Registry.{ToolDef, ChildSeed}
use ozint.Runtime.{LayerEvent, node_frame, already_in_tree, error, merge_patch, merge_sections}

pub record Normalized : Type 0 where
  pub display : String
  pub key : String

-- The code that a layer calls and that is not modelled, or is not this crate's.
pub record Codec : Type 0 where
  pub normalize : OzType → String → Normalized
  pub type_kebab : OzType → String
  pub to_string : ℕ → String
  pub uuid : ℕ → String
  pub empty_for : OzType → JsonObject
  pub retype : JsonObject → Option JsonObject

pub record LayerContext : Type 0 where
  pub layer_id : String
  pub investigation_id : String
  pub parent_node_id : String
  pub parent_depth : ℕ
  pub oz_type : OzType
  pub has_scheduler : Bool

-- The state that a layer shares with the rest of the process, and the number of uuids it took.
pub record Tree : Type 0 where
  pub visited : VisitedSet
  pub nodes : NodeTable
  pub minted : ℕ

module _ (codec : Codec) (ctx : LayerContext) where
  unfoldable pub dedup_key : OzType → String → String
  dedup_key oz_type raw =
      concat (codec.type_kebab oz_type ∷ ":" ∷ (codec.normalize oz_type raw).key ∷ [])

  unfoldable pub annotation : VisitedEntry → String
  annotation entry = concat ("already in tree · L" ∷ codec.to_string entry.depth ∷ [])

  unfoldable pub route_of : ToolDef → ℕ → Corroboration
  route_of tool now = record {
    tool_id = tool.id;
    method = tool.method;
    parent_node_id = ctx.parent_node_id;
    layer_id = ctx.layer_id;
    found_at = now;
    gated = tool.gated;
  }

  -- The node of a seed that is new to the tree.
  unfoldable pub child_of : ToolDef → ChildSeed → ℕ → Tree → OzNode
  unfolding dedup_key
  child_of tool seed now tree = record {
    id = codec.uuid tree.minted;
    investigation_id = ctx.investigation_id;
    parent_id = some ctx.parent_node_id;
    layer_id = some ctx.layer_id;
    ordinal = next_ordinal ctx.investigation_id ctx.parent_node_id tree.nodes;
    depth = ctx.parent_depth + 1;
    oz_type = seed.oz_type;
    value = (codec.normalize seed.oz_type seed.value).key;
    display = (codec.normalize seed.oz_type seed.value).display;
    dedup_key = dedup_key seed.oz_type seed.value;
    payload = codec.empty_for seed.oz_type;
    sections = [];
    gated = tool.gated;
    status = NodeStatus.idle;
    provenance = record {
      found_via_parent_id = some ctx.parent_node_id;
      source_tool_id = tool.id;
      method = tool.method;
      retrieved_at = now;
      tool_chain = tool.id ∷ [];
      gated = tool.gated;
    };
    already_in_tree = none;
    corroborations = [];
  }

  unfoldable pub visited_entry : OzNode → VisitedEntry
  visited_entry node = record { node_id = node.id; depth = node.depth; layer_id = node.layer_id }

  -- The branch of a value that the tree already holds.
  unfoldable pub corroborate : ToolDef → ℕ → VisitedEntry → Tree → LayerEvent × Tree
  unfolding annotation route_of
  corroborate tool now existing tree =
      let note = annotation existing in
      let (paths, nodes) =
        record_corroboration existing.node_id (route_of tool now) note tree.nodes in
      (
        already_in_tree ctx.layer_id existing.node_id note (route_of tool now) paths,
        record tree { nodes = nodes },
      )

  -- The branch of a new value; `failure` is the message of a failed insert, if it failed.
  unfoldable pub add_child : Option String → OzNode → Tree → Bool × LayerEvent × Tree
  unfolding visited_entry
  add_child (some failure) node tree = (
    false,
    error (some ctx.layer_id) (concat ("could not persist a discovered node: " ∷ failure ∷ [])),
    record tree { minted = suc tree.minted },
  )
  add_child none node tree = (
    true,
    node_frame ctx.layer_id node,
    record {
      visited = (insert_new node.oz_type node.dedup_key (visited_entry node) tree.visited).1;
      nodes = insert_node node tree.nodes;
      minted = suc tree.minted;
    },
  )

  unfoldable pub emit_child :
      ToolDef → ChildSeed → ℕ → (OzNode → Option String) → Tree → Bool × LayerEvent × Tree
  unfolding dedup_key child_of corroborate add_child
  emit_child tool seed now failure tree =
      elim (check seed.oz_type (dedup_key seed.oz_type seed.value) tree.visited) [
        | some existing ↦
            let (frame, tree') = corroborate tool now existing tree in (false, frame, tree')
        | none ↦ let node = child_of tool seed now tree in add_child (failure node) node tree
      ]

  -- Each contributing tool joins the chain once.
  unfoldable pub join_chain : List String → List String → List String
  join_chain chain [] = chain
  join_chain chain (id ∷ ids) =
      join_chain (if any (λ t. t == id) chain then chain else chain ++ id ∷ []) ids

  -- The parent node with one tool's patch and sections, once the payload has been read back.
  unfoldable pub enriched : OzNode → JsonObject → Bool → List String → List OzSection → ℕ → OzNode
  unfolding join_chain
  enriched node merged gated_verdict contributing sections now = record node {
    payload = merged;
    sections = merge_sections node.sections sections;
    gated = node.gated || gated_verdict;
    provenance = record node.provenance {
      tool_chain = join_chain node.provenance.tool_chain contributing;
      retrieved_at = now;
      gated = node.provenance.gated || gated_verdict;
    };
  }

  unfoldable pub persist_parent_payload :
      JsonObject
      → Bool
      → List String
      → List OzSection
      → ℕ
      → (OzNode → Option String)
      → NodeTable
      → NodeTable
  unfolding enriched
  persist_parent_payload patch gated_verdict contributing sections now failure nodes =
      elim (get_node ctx.parent_node_id nodes) [
        | none ↦ nodes
        | some node ↦ elim (codec.retype (merge_patch node.payload patch)) [
          | none ↦ nodes
          | some merged ↦
              let new = enriched node merged gated_verdict contributing sections now in
              elim (failure new) [ some _ ↦ nodes | none ↦ insert_node new nodes ]
        ]
      ]

-- ===== src/Visited.antt =====
-- crates/ozint/src/visited.rs: the values that a tree already holds, by type and dedup key.
pub mod Laws
use ozint.Base.{
  ℕ, String, Bool, true, false, not, Option, none, some, List, [], ◌∷◌, if◌then◌else◌, ◌==◌, any,
  Map, get, insert, retain, contains_key, string_eq, pair_eq,
}
use ozint.Types.{OzType, oz_type_eq, OzNode}

pub record VisitedEntry : Type 0 where
  pub node_id : String
  pub depth : ℕ
  pub layer_id : Option String

abbrev pub VisitedSet : Type 0
VisitedSet = Map (OzType × String) VisitedEntry

-- `VisitedSet::new`.
abbrev pub visited_new : VisitedSet
visited_new = []

unfoldable pub entry_of : OzNode → VisitedEntry
entry_of node = record { node_id = node.id; depth = node.depth; layer_id = node.layer_id }

-- The loop of `from_nodes`.
unfoldable pub add_nodes : List OzNode → VisitedSet → VisitedSet
unfolding entry_of
add_nodes [] set = set
add_nodes (node ∷ nodes) set =
    add_nodes nodes (insert (node.oz_type, node.dedup_key) (entry_of node) set)

unfoldable pub from_nodes : List OzNode → VisitedSet
unfolding add_nodes
from_nodes nodes = add_nodes nodes visited_new

unfoldable pub check : OzType → String → VisitedSet → Option VisitedEntry
check oz_type dedup_key set = get (oz_type, dedup_key) set

-- `VisitedSet::insert`.
unfoldable pub insert_new : OzType → String → VisitedEntry → VisitedSet → Bool × VisitedSet
insert_new oz_type dedup_key entry set =
    if contains_key (oz_type, dedup_key) set
    then (false, set)
    else (true, insert (oz_type, dedup_key) entry set)

unfoldable pub clear_subtree : List String → VisitedSet → VisitedSet
clear_subtree [] set = set
clear_subtree (id ∷ ids) set = retain (λ entry. not (any (λ i. i == entry.node_id) (id ∷ ids))) set

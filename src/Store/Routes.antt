-- ===== src/Store/Routes.antt =====
-- The routes to a value (`record_corroboration` of crates/ozint/src/store.rs).
use ozint.Base.{
  suc, String, true, ◌≡◌, refl, ap, Option, none, some, [], ◌∷◌, any-append, length, get,
  get-insert_self, string_eq, eq_self, arith,
}
use ozint.Types.{OzNode, Corroboration, same_route_as}
use ozint.Store.{NodeTable, routes, record_corroboration}

same_route_self : (c : Corroboration) → same_route_as c c.tool_id c.parent_node_id ≡ true
unfolding same_route_as
same_route_self c = ground (arith, eq_self c.tool_id, eq_self c.parent_node_id)

routes-routes :
    (node : OzNode) (c : Corroboration) (label : Option String)
    → routes (record node { corroborations = routes node c; already_in_tree = label }) c
      ≡ routes node c
unfolding routes same_route_as
routes-routes node c label = ground (
  arith,
  eq_self c.tool_id,
  eq_self c.parent_node_id,
  any-append (λ (d : Corroboration). same_route_as d c.tool_id c.parent_node_id) node.corroborations
      (c ∷ []),
)

-- A route is counted once: recorded a second time, whenever and under whatever annotation, the
-- same tool from the same parent reports the same number of paths.
pub record_corroboration-again :
    (id : String) (c : Corroboration) (note later : String) (table : NodeTable)
    → (record_corroboration id c later (record_corroboration id c note table).1).0
      ≡ (record_corroboration id c note table).0
unfolding record_corroboration
record_corroboration-again id c note later table = go (get id table) refl
  where
    go :
        (r : Option OzNode)
        → get id table ≡ r
        → (record_corroboration id c later (record_corroboration id c note table).1).0
          ≡ (record_corroboration id c note table).0
    go none e = rw (e, record_corroboration) (rw (e, record_corroboration) refl)
    go (some node) e =
        let node' = record node { corroborations = routes node c; already_in_tree = some note } in
        rw (e, record_corroboration)
          (rw (get-insert_self id node' table, record_corroboration)
            (ap (λ ds. some (suc (length ds))) (routes-routes node c (some note))))

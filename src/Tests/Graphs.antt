-- ===== src/Tests/Graphs.antt =====
-- A walk on two nodes that point to each other.
use cbrain.Prelude.{ℕ, ◌*◌, ◌≤◌, String, Option, none, some, List, [], ◌∷◌, ◌≡◌, refl}
use cbrain.Prelude.Lists.{length, All}
use cbrain.Prelude.Dict.{Dict, lookup}
use cbrain.Contracts.{Float}
use cbrain.Knowledge.Graph.{
  GraphNode, GraphEdge, GraphPath, insert_edge, sort_edges, edge_count, next_nodes, followers, walk,
  walk_fuel, walk_from, walk_seeds, bounded_walk,
}
use cbrain.Knowledge.Graph.Bounded.{IsFound, bounded_walk_ends}

abbrev node : String → GraphNode
node id = record {
  node_id = id;
  tenant_id = "acme";
  canonical_type = "org";
  canonical_name = id;
  attributes = [];
  provenance_chunk_ids = "chunk-1" ∷ [];
  confidence = Float.finite "1.0";
  valid_from = Float.finite "0.0";
  valid_to = none;
  source_revision = 1;
  source_id = "source-1";
  schema_version = 1;
  merge_score = none;
  merge_reason = none;
}

abbrev edge : String → String → String → GraphEdge
edge id source target = record {
  edge_id = id;
  tenant_id = "acme";
  source_node_id = source;
  relation_type = "owns";
  target_node_id = target;
  provenance_chunk_ids = "chunk-1" ∷ [];
  confidence = Float.finite "1.0";
  valid_from = Float.finite "0.0";
  valid_to = none;
  source_revision = 1;
  source_id = "source-1";
  schema_version = 1;
}

abbrev visible : Dict GraphNode
visible = ("a", node "a") ∷ ("b", node "b") ∷ []

abbrev adjacency : Dict (List GraphEdge)
adjacency = ("a", edge "e2" "a" "b" ∷ edge "e1" "a" "c" ∷ []) ∷ ("b", edge "e3" "b" "a" ∷ []) ∷ []

abbrev cite : List GraphNode → List String
cite nodes = "chunk-1" ∷ []

abbrev count : Option (List (GraphPath String)) → ℕ
count none = 0
count (some ps) = length ps

two_paths : count (bounded_walk visible adjacency 2 5 cite ("a" ∷ "z" ∷ [])) ≡ 2
unfolding bounded_walk walk_seeds walk_from walk walk_fuel edge_count followers next_nodes
    sort_edges insert_edge lookup
two_paths = refl

bounded_walk_ends_example :
    (ps : List (GraphPath String)) × (bounded_walk visible adjacency 2 5 cite ("a" ∷ "z" ∷ [])
      ≡ some ps)
    × All (IsFound visible adjacency 2 5 cite ("a" ∷ "z" ∷ [])) ps
    × (length ps ≤ 2 * 5)
bounded_walk_ends_example = bounded_walk_ends visible adjacency 2 5 cite ("a" ∷ "z" ∷ [])

-- ===== src/Knowledge/Graph.antt =====
-- cbrain/knowledge/graph.py: `bounded_walk`, and the records of the graph from
-- cbrain/knowledge/contracts.py.
pub mod Trails
pub mod Bounded
use cbrain.Prelude.{
  ℕ, zero, suc, ◌+◌, ◌*◌, String, Option, none, some, Bool, true, false, not, List, [], ◌∷◌, ◌++◌,
  ltb, leb, str_eq, ◌||◌, if◌then◌else◌,
}
use Prim.Native.Nat.{Ordering}
use Prim.Native.String.{compare}
use cbrain.Prelude.Lists.{length}
use cbrain.Prelude.Dict.{Dict, lookup}
use cbrain.Contracts.{Float}

pub record GraphNode : Type 0 where
  pub node_id : String
  pub tenant_id : String
  pub canonical_type : String
  pub canonical_name : String
  pub attributes : Dict String
  pub provenance_chunk_ids : List String
  pub confidence : Float
  pub valid_from : Float
  pub valid_to : Option Float
  pub source_revision : ℕ
  pub source_id : String
  pub schema_version : ℕ
  pub merge_score : Option Float
  pub merge_reason : Option String

pub record GraphEdge : Type 0 where
  pub edge_id : String
  pub tenant_id : String
  pub source_node_id : String
  pub relation_type : String
  pub target_node_id : String
  pub provenance_chunk_ids : List String
  pub confidence : Float
  pub valid_from : Float
  pub valid_to : Option Float
  pub source_revision : ℕ
  pub source_id : String
  pub schema_version : ℕ

pub record GraphPath (Citation : Type 0) : Type 0 where
  pub nodes : List GraphNode
  pub edges : List GraphEdge
  pub citations : List Citation

-- An element of `stack`.
pub record Pending : Type 0 where
  pub node_id : String
  pub depth : ℕ
  pub nodes : List GraphNode
  pub edges : List GraphEdge

-- `x in visited`
abbrev pub is_visited : List String → String → Bool
is_visited [] x = false
is_visited (y ∷ ys) x = str_eq y x || is_visited ys x

-- `a.edge_id < b.edge_id`
abbrev pub is_earlier : GraphEdge → GraphEdge → Bool
is_earlier a b = elim (compare a.edge_id b.edge_id) [ Ordering.lt ↦ true | _ ↦ false ]

-- `sorted(edges, key=...)`, which is stable.
unfoldable pub insert_edge : GraphEdge → List GraphEdge → List GraphEdge
insert_edge e [] = e ∷ []
insert_edge e (f ∷ fs) =
    let rest = insert_edge e fs in if is_earlier f e then f ∷ rest else e ∷ f ∷ fs

unfoldable pub sort_edges : List GraphEdge → List GraphEdge
unfolding insert_edge
sort_edges [] = []
sort_edges (e ∷ es) = insert_edge e (sort_edges es)

abbrev pub edges_of : Option (List GraphEdge) → List GraphEdge
edges_of none = []
edges_of (some es) = es

-- All edges: no node has more.
unfoldable pub edge_count : Dict (List GraphEdge) → ℕ
edge_count [] = 0
edge_count ((_, es) ∷ d) = length es + edge_count d

abbrev pub cited :
    {Citation : Type 0}
    → List GraphNode
    → List GraphEdge
    → List Citation
    → List (GraphPath Citation)
cited nodes edges [] = []
cited nodes edges (c ∷ cs) = record { nodes = nodes; edges = edges; citations = c ∷ cs } ∷ []

module _ (visible : Dict GraphNode) (adjacency : Dict (List GraphEdge))
    (max_depth max_nodes : ℕ) where
  -- The loop over the edges of a node, which may break; it reads `visited` only.
  unfoldable pub next_nodes : List String → Pending → List GraphEdge → List Pending
  unfolding lookup
  next_nodes visited at [] = []
  next_nodes visited at (e ∷ es) =
      let rest = next_nodes visited at es in
      if is_visited visited e.target_node_id
      then rest
      else if leb max_nodes (length visited)
      then []
      else elim (lookup e.target_node_id visible) [
        | none ↦ rest
        | some target ↦
            record {
              node_id = e.target_node_id;
              depth = at.depth + 1;
              nodes = at.nodes ++ (target ∷ []);
              edges = at.edges ++ (e ∷ []);
            }
            ∷ rest
      ]

  -- What is put on the stack for a node that has just been visited.
  unfoldable pub followers : List String → Pending → List Pending
  unfolding next_nodes sort_edges lookup
  followers visited at =
      if leb max_depth at.depth
      then []
      else next_nodes visited at (sort_edges (edges_of (lookup at.node_id adjacency)))

  -- Each round takes one element off the stack; each visit puts on at most as many as there are edges.
  unfoldable pub walk_fuel : ℕ
  unfolding edge_count
  walk_fuel = 2 + max_nodes * (1 + edge_count adjacency)

module _ {Citation : Type 0} (visible : Dict GraphNode) (adjacency : Dict (List GraphEdge))
    (max_depth max_nodes : ℕ) (citations_for : List GraphNode → List Citation) where
  -- The while loop on fuel; `none` where the fuel does not suffice.
  unfoldable pub walk :
      ℕ
      → List String
      → List Pending
      → List (GraphPath Citation)
      → Option (List (GraphPath Citation))
  unfolding followers
  walk zero visited stack paths = none
  walk (suc fuel) visited [] paths = some paths
  walk (suc fuel) visited (at ∷ stack) paths = elim (ltb (length visited) max_nodes) [
    | false ↦ some paths
    | true ↦ elim (is_visited visited at.node_id) [
      | true ↦ walk fuel visited stack paths
      | false ↦
          let visited' = at.node_id ∷ visited in
          walk fuel visited' (stack ++ followers visible adjacency max_depth max_nodes visited' at)
            (paths ++ cited at.nodes at.edges (citations_for at.nodes))
    ]
  ]

  unfoldable pub walk_from :
      String → Option GraphNode → List (GraphPath Citation) → Option (List (GraphPath Citation))
  unfolding walk walk_fuel
  walk_from seed none paths = some paths
  walk_from seed (some node) paths =
      walk (walk_fuel visible adjacency max_depth max_nodes) []
        (record { node_id = seed; depth = 0; nodes = node ∷ []; edges = [] } ∷ []) paths

  -- `bounded_walk`, seed by seed.
  unfoldable pub walk_seeds :
      List String → List (GraphPath Citation) → Option (List (GraphPath Citation))
  unfolding walk_from lookup
  walk_seeds [] paths = some paths
  walk_seeds (seed ∷ seeds) paths = elim (walk_from seed (lookup seed visible) paths) [
    | none ↦ none
    | some paths' ↦ walk_seeds seeds paths'
  ]

  unfoldable pub bounded_walk : List String → Option (List (GraphPath Citation))
  unfolding walk_seeds
  bounded_walk seeds = walk_seeds seeds []

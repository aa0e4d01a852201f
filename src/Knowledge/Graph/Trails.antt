-- ===== src/Knowledge/Graph/Trails.antt =====
-- Trails through the visible graph, which the elements of the stack are.
use cbrain.Prelude.{
  ℕ, suc, ◌+◌, ◌≤◌, ◌<◌, String, Option, none, some, Bool, true, false, List, [], ◌∷◌, ◌++◌, str_eq,
  leb, ◌≡◌, refl, ap, ◌∙◌, ◌⊎◌, inl, inr, arith, Bool-cases, if◌then◌else◌,
}
use cbrain.Prelude.Lists.{length, length-append, All}
use cbrain.Prelude.Dict.{Dict, lookup}
use cbrain.Knowledge.Graph.{
  GraphNode, GraphEdge, Pending, is_visited, is_earlier, insert_edge, sort_edges, edges_of,
  edge_count, next_nodes, followers,
}

-- Membership in a list.
abbrev pub In : {A : Type 0} → A → List A → Type 0
In x [] = ⊥
In x (y ∷ ys) = (x ≡ y) ⊎ In x ys

insert_edge-In :
    (x e : GraphEdge) (es : List GraphEdge) → In x (insert_edge e es) → (x ≡ e) ⊎ In x es
unfolding insert_edge
insert_edge-In x e [] (inl h) = inl h
insert_edge-In x e [] (inr h) = absurd h
insert_edge-In x e (f ∷ fs) h = from (is_earlier f e) h (insert_edge-In x e fs)
  where
    from :
        (b : Bool)
        → In x (if b then f ∷ insert_edge e fs else e ∷ f ∷ fs)
        → (In x (insert_edge e fs) → (x ≡ e) ⊎ In x fs)
        → (x ≡ e) ⊎ In x (f ∷ fs)
    from true (inl h) ih = inr (inl h)
    from true (inr h) ih = elim (ih h) [ inl same ↦ inl same | inr there ↦ inr (inr there) ]
    from false (inl h) ih = inl h
    from false (inr h) ih = inr h

pub sort_edges-In : (x : GraphEdge) (es : List GraphEdge) → In x (sort_edges es) → In x es
unfolding sort_edges
sort_edges-In x [] h = h
sort_edges-In x (e ∷ es) h = elim (insert_edge-In x e (sort_edges es) h) [
  | inl same ↦ inl same
  | inr there ↦ inr (sort_edges-In x es there)
]

length-insert_edge :
    (e : GraphEdge) (es : List GraphEdge) → length (insert_edge e es) ≡ suc (length es)
unfolding insert_edge
length-insert_edge e [] = refl
length-insert_edge e (f ∷ fs) = from (is_earlier f e) (length-insert_edge e fs)
  where
    from :
        (b : Bool)
        → length (insert_edge e fs) ≡ suc (length fs)
        → length (if b then f ∷ insert_edge e fs else e ∷ f ∷ fs) ≡ suc (suc (length fs))
    from true h = ap suc h
    from false h = refl

pub length-sort_edges : (es : List GraphEdge) → length (sort_edges es) ≡ length es
unfolding sort_edges
length-sort_edges [] = refl
length-sort_edges (e ∷ es) = length-insert_edge e (sort_edges es) ∙ ap suc (length-sort_edges es)

pub length-edges_of :
    (id : String) (d : Dict (List GraphEdge)) → length (edges_of (lookup id d)) ≤ edge_count d
unfolding lookup edge_count
length-edges_of id [] = omega arith
length-edges_of id ((j, es) ∷ d) = from (str_eq j id) (length-edges_of id d)
  where
    from :
        (b : Bool)
        → length (edges_of (lookup id d)) ≤ edge_count d
        → length (edges_of (if b then some es else lookup id d)) ≤ length es + edge_count d
    from true h = omega arith
    from false h = omega (arith, h)

module _ (visible : Dict GraphNode) (adjacency : Dict (List GraphEdge)) where
  -- A trail from a seed: it starts at the seed's node, and each edge belongs to the node that it
  -- leaves and leads to a visible node.
  pub data Trail (seed : String) : String → List GraphNode → List GraphEdge → Type 0 where
    starts : (node : GraphNode) → lookup seed visible ≡ some node → Trail seed seed (node ∷ []) []
    goes_on :
        {id : String} {nodes : List GraphNode} {edges : List GraphEdge} (e : GraphEdge)
        (target : GraphNode)
        → Trail seed id nodes edges
        → In e (edges_of (lookup id adjacency))
        → lookup e.target_node_id visible ≡ some target
        → Trail seed e.target_node_id (nodes ++ (target ∷ [])) (edges ++ (e ∷ []))

  pub Trail-length :
      {seed id : String} {nodes : List GraphNode} {edges : List GraphEdge}
      → Trail seed id nodes edges
      → length nodes ≡ suc (length edges)
  Trail-length (Trail.starts node h) = refl
  Trail-length (Trail.goes_on {nodes = nodes} {edges = edges} e target t i h) =
      omega (arith, Trail-length t, length-append nodes (target ∷ []), length-append edges (e ∷ []))

  module _ (max_depth max_nodes : ℕ) (seed : String) where
    -- What holds of an element of the stack.
    abbrev pub Sound : Pending → Type 0
    Sound at =
        Trail seed at.node_id at.nodes at.edges
        × (length at.edges ≡ at.depth)
        × (at.depth ≤ max_depth)

    -- What the loop over the edges puts on the stack.
    abbrev Added : List Pending → List GraphEdge → Type 0
    Added added es = All Sound added × (length added ≤ length es)

    Added-if :
        (b : Bool) (x y : List Pending) (es : List GraphEdge)
        → Added x es
        → Added y es
        → Added (if b then x else y) es
    Added-if true x y es f g = f
    Added-if false x y es f g = g

    next_nodes-Added :
        (visited : List String) (at : Pending) (es : List GraphEdge)
        → Sound at
        → at.depth < max_depth
        → ((e : GraphEdge) → In e es → In e (edges_of (lookup at.node_id adjacency)))
        → Added (next_nodes visible adjacency max_depth max_nodes visited at es) es
    unfolding next_nodes
    next_nodes-Added visited at [] s d all = (tt, omega arith)
    next_nodes-Added visited at (e ∷ es) s d all =
        let (good, few) = next_nodes-Added visited at es s d (λ f i. all f (inr i)) in
        Added-if (is_visited visited e.target_node_id) _ _ (e ∷ es) (good, omega (arith, few))
          (Added-if (leb max_nodes (length visited)) _ _ (e ∷ es) (tt, omega arith)
            (target_added (lookup e.target_node_id visible) refl good few))
      where
        target_added :
            (o : Option GraphNode)
            → lookup e.target_node_id visible ≡ o
            → All Sound (next_nodes visible adjacency max_depth max_nodes visited at es)
            → length (next_nodes visible adjacency max_depth max_nodes visited at es) ≤ length es
            → Added
                (elim o [
                  | none ↦ next_nodes visible adjacency max_depth max_nodes visited at es
                  | some target ↦
                      record {
                        node_id = e.target_node_id;
                        depth = at.depth + 1;
                        nodes = at.nodes ++ (target ∷ []);
                        edges = at.edges ++ (e ∷ []);
                      }
                      ∷ next_nodes visible adjacency max_depth max_nodes visited at es
                ])
                (e ∷ es)
        target_added none h good few = (good, omega (arith, few))
        target_added (some target) h good few =
            let (trail, deep, _) = s in
            (
              (
                (
                  Trail.goes_on e target trail (all e (inl refl)) h,
                  omega (arith, deep, length-append at.edges (e ∷ [])),
                  omega (arith, d),
                ),
                good,
              ),
              omega (arith, few),
            )

    -- The followers of a visited node are sound, and no more than there are edges.
    pub followers-Added :
        (visited : List String) (at : Pending)
        → Sound at
        → All Sound (followers visible adjacency max_depth max_nodes visited at)
          × (length (followers visible adjacency max_depth max_nodes visited at)
              ≤ edge_count adjacency)
    unfolding followers
    followers-Added visited at s = elim (Bool-cases (leb max_depth at.depth)) [
      | inl end ↦ rw end (tt, omega arith)
      | inr more ↦
          let es = edges_of (lookup at.node_id adjacency) in
          let (good, few) =
            next_nodes-Added visited at (sort_edges es) s (ground arith)
              (λ e i. sort_edges-In e es i) in
          rw more
            (good, omega (arith, few, length-sort_edges es, length-edges_of at.node_id adjacency))
    ]

    pub append-Sound : (xs ys : List Pending) → All Sound xs → All Sound ys → All Sound (xs ++ ys)
    append-Sound [] ys f g = g
    append-Sound (x ∷ xs) ys (h, f) g = (h, append-Sound xs ys f g)

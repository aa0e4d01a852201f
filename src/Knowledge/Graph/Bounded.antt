-- ===== src/Knowledge/Graph/Bounded.antt =====
-- `bounded_walk` ends, and what it returns.
use cbrain.Prelude.{
  ℕ, zero, suc, ◌+◌, ◌*◌, ◌≤◌, ◌<◌, String, Option, none, some, true, false, List, [], ◌∷◌, ◌++◌,
  ltb, ◌≡◌, ◌≢◌, refl, sym, inl, inr, arith, Bool-cases,
}
use cbrain.Prelude.Lists.{length, length-append, All}
use cbrain.Prelude.Dict.{Dict, lookup}
use cbrain.Knowledge.Graph.{
  GraphNode, GraphEdge, GraphPath, Pending, is_visited, edge_count, cited, followers, walk,
  walk_fuel, walk_from, walk_seeds, bounded_walk,
}
use cbrain.Knowledge.Graph.Trails.{In, Trail, Sound, followers-Added, append-Sound}

suc_mul : (n m : ℕ) → suc n * m ≡ n * m + m
suc_mul n m = omega arith

module _ {Citation : Type 0} (visible : Dict GraphNode) (adjacency : Dict (List GraphEdge))
    (max_depth max_nodes : ℕ) (citations_for : List GraphNode → List Citation)
    (seeds : List String) where
  -- A path that the walk may return: a trail from a seed within the depth, with its citations.
  pub record IsFound (path : GraphPath Citation) : Type 0 where
    pub seed : String
    pub listed : In seed seeds
    pub end_id : String
    pub trail : Trail visible adjacency seed end_id path.nodes path.edges
    pub within_depth : length path.edges ≤ max_depth
    pub citations : path.citations ≡ citations_for path.nodes
    pub is_cited : path.citations ≢ []

  append-IsFound :
      (xs ys : List (GraphPath Citation)) → All IsFound xs → All IsFound ys → All IsFound (xs ++ ys)
  append-IsFound [] ys f g = g
  append-IsFound (x ∷ xs) ys (h, f) g = (h, append-IsFound xs ys f g)

  -- The walk has returned sound paths, at most so many more.
  abbrev Found : ℕ → List (GraphPath Citation) → Option (List (GraphPath Citation)) → Type 0
  Found more paths none = ⊥
  Found more paths (some ps) = All IsFound ps × (length ps ≤ length paths + more)

  Found-weaken :
      (m n : ℕ) (ps qs : List (GraphPath Citation)) (o : Option (List (GraphPath Citation)))
      → length ps + m ≤ length qs + n
      → Found m ps o
      → Found n qs o
  Found-weaken m n ps qs none h f = f
  Found-weaken m n ps qs (some rs) h (good, few) = (good, omega (arith, h, few))

  cited-IsFound :
      (seed : String) (at : Pending)
      → In seed seeds
      → Sound visible adjacency max_depth max_nodes seed at
      → (cs : List Citation) → citations_for at.nodes ≡ cs
      → All IsFound (cited at.nodes at.edges cs) × (length (cited at.nodes at.edges cs) ≤ 1)
  cited-IsFound seed at i s [] e = (tt, omega arith)
  cited-IsFound seed at i (trail, deep, d) (c ∷ cs) e = (
    (
      record {
        seed = seed;
        listed = i;
        end_id = at.node_id;
        trail = trail;
        within_depth = omega (arith, deep, d);
        citations = sym e;
        is_cited = λ h. absurd (cc);
      },
      tt,
    ),
    omega arith,
  )

  -- With enough fuel for the stack and for the nodes that may still be visited, the walk ends.
  walk-Found :
      (seed : String) (fuel room : ℕ) (visited : List String) (stack : List Pending)
      (paths : List (GraphPath Citation))
      → In seed seeds
      → length visited + room ≡ max_nodes
      → length stack + room * (1 + edge_count adjacency) < fuel
      → All (Sound visible adjacency max_depth max_nodes seed) stack
      → All IsFound paths
      → Found room paths
          (walk visible adjacency max_depth max_nodes citations_for fuel visited stack paths)
  unfolding walk
  walk-Found seed zero room visited stack paths i r enough s good = absurd (omega (arith, enough))
  walk-Found seed (suc fuel) room visited [] paths i r enough s good = (good, omega arith)
  walk-Found seed (suc fuel) zero visited (at ∷ stack) paths i r enough s good =
      let full : ltb (length visited) max_nodes ≡ false = ground (arith, r) in
      rw (full, Found, walk) (good, omega arith)
  walk-Found seed (suc fuel) (suc room) visited (at ∷ stack) paths i r enough (here, s) good =
      let free : ltb (length visited) max_nodes ≡ true = ground (arith, r) in
      let visited' = at.node_id ∷ visited in
      let (sound, few) =
        followers-Added visible adjacency max_depth max_nodes seed visited' at here in
      let (found, one) = cited-IsFound seed at i here (citations_for at.nodes) refl in
      let next = followers visible adjacency max_depth max_nodes visited' at in
      let new = cited at.nodes at.edges (citations_for at.nodes) in
      elim (Bool-cases (is_visited visited at.node_id)) [
        | inl again ↦
            rw (free, again, Found, walk)
              (walk-Found seed fuel (suc room) visited stack paths i r (omega (arith, enough)) s
                good)
        | inr first ↦
            rw (free, first, Found, walk)
              (Found-weaken room (suc room) (paths ++ new) paths _
                (omega (arith, one, length-append paths new))
                (walk-Found seed fuel room visited' (stack ++ next) (paths ++ new) i
                  (omega (arith, r))
                  (omega (
                    arith,
                    enough,
                    few,
                    length-append stack next,
                    suc_mul room (1 + edge_count adjacency),
                  ))
                  (append-Sound visible adjacency max_depth max_nodes seed stack next s sound)
                  (append-IsFound paths new good found)))
      ]

  walk_from-Found :
      (seed : String) (o : Option GraphNode) (paths : List (GraphPath Citation))
      → In seed seeds
      → lookup seed visible ≡ o
      → All IsFound paths
      → Found max_nodes paths
          (walk_from visible adjacency max_depth max_nodes citations_for seed o paths)
  unfolding walk_from walk_fuel
  walk_from-Found seed none paths i e good = (good, omega arith)
  walk_from-Found seed (some node) paths i e good =
      walk-Found seed _ max_nodes []
        (record { node_id = seed; depth = 0; nodes = node ∷ []; edges = [] } ∷ []) paths i
        (omega arith) (omega arith) ((Trail.starts node e, refl, omega arith), tt) good

  walk_seeds-Found :
      (left : List String) (paths : List (GraphPath Citation))
      → ((seed : String) → In seed left → In seed seeds)
      → All IsFound paths
      → Found
          (length left * max_nodes)
          paths
          (walk_seeds visible adjacency max_depth max_nodes citations_for left paths)
  unfolding walk_seeds
  walk_seeds-Found [] paths all good = (good, omega arith)
  walk_seeds-Found (seed ∷ left) paths all good =
      rest
        (walk_from visible adjacency max_depth max_nodes citations_for seed (lookup seed visible)
          paths)
        (walk_from-Found seed (lookup seed visible) paths (all seed (inl refl)) refl good)
        (λ ps g. walk_seeds-Found left ps (λ x i. all x (inr i)) g)
    where
      rest :
          (o : Option (List (GraphPath Citation)))
          → Found max_nodes paths o
          → ((ps : List (GraphPath Citation))
              → All IsFound ps
              → Found
                  (length left * max_nodes)
                  ps
                  (walk_seeds visible adjacency max_depth max_nodes citations_for left ps))
          → Found (suc (length left) * max_nodes) paths (elim o [
            | none ↦ none
            | some ps ↦ walk_seeds visible adjacency max_depth max_nodes citations_for left ps
          ])
      rest none f k = f
      rest (some ps) (g, few) k =
          Found-weaken (length left * max_nodes) (suc (length left) * max_nodes) ps paths _
            (omega (arith, few, suc_mul (length left) max_nodes)) (k ps g)

  -- The walk ends for every graph, and returns at most `max_nodes` paths for each seed. Each path is
  -- a trail from a seed over edges of the nodes that it passes and through visible nodes, with at
  -- most `max_depth` edges and with the citations of its nodes, which are not none.
  pub bounded_walk_ends :
      (ps : List (GraphPath Citation)) × (bounded_walk visible adjacency max_depth max_nodes
          citations_for seeds
        ≡ some ps)
      × All IsFound ps
      × (length ps ≤ length seeds * max_nodes)
  unfolding bounded_walk
  bounded_walk_ends =
      from (walk_seeds visible adjacency max_depth max_nodes citations_for seeds []) refl
        (walk_seeds-Found seeds [] (λ x i. i) tt)
    where
      from :
          (o : Option (List (GraphPath Citation)))
          → walk_seeds visible adjacency max_depth max_nodes citations_for seeds [] ≡ o
          → Found (length seeds * max_nodes) [] o
          → (ps : List (GraphPath Citation)) × (walk_seeds visible adjacency max_depth max_nodes
                citations_for seeds []
              ≡ some ps)
            × All IsFound ps
            × (length ps ≤ length seeds * max_nodes)
      from none e f = absurd f
      from (some ps) e (good, few) = (ps, e, good, omega (arith, few))

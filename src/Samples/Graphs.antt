-- ===== src/Samples/Graphs.antt =====
-- Graphs of two nodes: one with the edge from "a" to "b", and one with a cycle.
use gru.Prelude.{
  ℕ, String, ◌≡◌, refl, ◌≢◌, true, false, List, [], ◌∷◌, arith, some, if◌then◌else◌, elem, ==_iff,
  ◌==◌, Map, Unique, remove,
}
use gru.Graph.Heap.{Heap, Node, Graph, values, edges_of}
use gru.Graph.Sets.{list_set}
use gru.Graph.Sort.{
  sorted, circular, sort, sort_loop, remove_ready, find_ready, add_all, strip_edges,
}
use gru.Graph.Sort.Invariant.{IsOrdered}
use gru.Graph.Build.{IsDistinct-of-map}
use gru.Graph.Sort.Rounds.{IsGraph}
use gru.Graph.Sort.Order.{sort-perm, sort-IsOrdered, node-sort}
use gru.Graph.Sort.Cycles.{sort-circular_edges, sort_of_ranked, IsClosed, IsRanked}
use gru.Graph.Reversed.{reversed}
use gru.Graph.Reversed.Contract.{IsWhole, IsReverse, reversed-IsReverse}

abbrev node_of : String → List ℕ → Node
node_of name edges = record { name = name; edges = edges }

abbrev pair_heap : List ℕ → List ℕ → Heap
pair_heap e₀ e₁ = record {
  next = 2;
  node = λ p. elim (p == 0) [ true ↦ node_of "a" e₀ | false ↦ node_of "b" e₁ ];
}

abbrev pair_nodes : Map ℕ
pair_nodes = ("a", 0) ∷ ("b", 1) ∷ []

abbrev chain : Heap
chain = pair_heap (1 ∷ []) []

abbrev cycle : Heap
cycle = pair_heap (1 ∷ []) (0 ∷ [])

pair-IsGraph : (e₀ e₁ : List ℕ) → IsGraph (pair_heap e₀ e₁) pair_nodes
pair-IsGraph e₀ e₁ = record {
  keyed = (refl, (refl, tt));
  distinct = IsDistinct-of-map (pair_heap e₀ e₁) pair_nodes (refl, (refl, tt)) (refl, (refl, tt));
}

chain_sorted : (sort list_set chain pair_nodes).outcome ≡ sorted (1 ∷ 0 ∷ [])
unfolding sort sort_loop remove_ready find_ready add_all strip_edges remove
chain_sorted = refl

cycle_circular : (sort list_set cycle pair_nodes).outcome ≡ circular (0 ∷ 1 ∷ [])
unfolding sort sort_loop remove_ready find_ready add_all strip_edges remove
cycle_circular = refl

sort-perm_example :
    Unique (1 ∷ 0 ∷ [])
    × ((a : ℕ) → elem a (1 ∷ 0 ∷ []) ≡ elem a (values pair_nodes))
    × ((sort list_set chain pair_nodes).nodes ≡ [])
sort-perm_example =
    sort-perm list_set chain pair_nodes (pair-IsGraph (1 ∷ []) []) (1 ∷ 0 ∷ []) chain_sorted

sort-IsOrdered_example : IsOrdered chain [] (1 ∷ 0 ∷ [])
sort-IsOrdered_example =
    sort-IsOrdered list_set chain pair_nodes (pair-IsGraph (1 ∷ []) []) (1 ∷ 0 ∷ []) chain_sorted

node-sort_example : (sort list_set chain pair_nodes).heap.node 7 ≡ chain.node 7
node-sort_example = node-sort list_set chain pair_nodes 7 refl

cycle-IsClosed : IsClosed cycle pair_nodes
cycle-IsClosed p q in_p e = ground (arith, in_p, e, ==_iff p 0, ==_iff p 1)

sort-circular_edges_example :
    let both : List ℕ = 0 ∷ 1 ∷ [] in
    (both ≢ [])
    × ((p : ℕ) → elem p (0 ∷ 1 ∷ []) ≡ true → elem p (values pair_nodes) ≡ true)
    × ((p : ℕ)
        → elem p (0 ∷ 1 ∷ []) ≡ true
        → (q : ℕ) × (elem q (edges_of cycle p) ≡ true) × (elem q (0 ∷ 1 ∷ []) ≡ true))
sort-circular_edges_example =
    sort-circular_edges list_set cycle pair_nodes (pair-IsGraph (1 ∷ []) (0 ∷ [])) cycle-IsClosed
      (0 ∷ 1 ∷ []) cycle_circular

chain-IsClosed : IsClosed chain pair_nodes
chain-IsClosed p q in_p e = ground (arith, in_p, e, ==_iff p 0, ==_iff p 1)

abbrev height : ℕ → ℕ
height p = if p == 0 then 1 else 0

chain-IsRanked : IsRanked height chain pair_nodes
chain-IsRanked p q in_p e = ground (arith, in_p, e, ==_iff p 0, ==_iff p 1, ==_iff q 1, ==_iff q 0)

sort_of_ranked_example : (ps : List ℕ) × ((sort list_set chain pair_nodes).outcome ≡ sorted ps)
sort_of_ranked_example =
    sort_of_ranked list_set chain pair_nodes (pair-IsGraph (1 ∷ []) []) height chain-IsClosed
      chain-IsRanked

chain-IsWhole : IsWhole chain pair_nodes
chain-IsWhole = record {
  keyed = (refl, (refl, tt));
  below = (omega arith, (omega arith, tt));
  closed = chain-IsClosed;
}

reversed-IsReverse_example :
    (g : Graph) × (h : Heap) × (reversed chain (record { nodes = pair_nodes }) ≡ some (g, h))
    × IsReverse chain pair_nodes g h
reversed-IsReverse_example = reversed-IsReverse chain (record { nodes = pair_nodes }) chain-IsWhole

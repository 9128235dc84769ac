-- ===== src/Graph/Reversed.antt =====
-- `Reversed` of graph/graph.go: a new graph with a copy of each node and every edge turned round.
pub mod Copies
pub mod Edges
pub mod Contract
use gru.Prelude.{ℕ, String, Option, none, some, List, [], ◌∷◌, Map, lookup, insert}
use gru.Graph.Build.{Building, build_step, start}
use gru.Graph.Heap.{Heap, name_of, edges_of, Graph, new, new_node, add_node, add_edge}

-- for _, n := range g.Nodes: a fresh node under the name of each node.
unfoldable pub copy_nodes : Map ℕ → Building → Building
copy_nodes [] c = c
copy_nodes ((k, p) ∷ ns) c = copy_nodes ns (build_step (name_of c.heap p) c)

-- for _, edge := range node.Edges. A name that is missing in `copies` yields a nil node; `none` is
-- the fault at a nil node.
unfoldable pub turn_edges : Map ℕ → ℕ → List ℕ → Heap → Option Heap
turn_edges copies p [] h = some h
turn_edges copies p (e ∷ es) h = elim (lookup (name_of h e) copies) [
  | none ↦ none
  | some q ↦ elim (lookup (name_of h p) copies) [
    | none ↦ none
    | some x ↦ turn_edges copies p es (add_edge q (x ∷ []) h)
  ]
]

-- for _, node := range g.Nodes.
unfoldable pub turn_all : Map ℕ → Map ℕ → Heap → Option Heap
turn_all copies [] h = some h
turn_all copies ((k, p) ∷ ns) h = elim (turn_edges copies p (edges_of h p) h) [
  | none ↦ none
  | some h' ↦ turn_all copies ns h'
]

unfoldable pub reversed : Heap → Graph → Option (Graph × Heap)
reversed h g =
    let c = copy_nodes g.nodes (start h) in
    elim (turn_all c.table g.nodes c.heap) [ none ↦ none | some h' ↦ some (c.graph, h') ]

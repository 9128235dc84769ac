-- ===== src/Graph/Heap.antt =====
-- The heap of nodes, and the operations of a graph that build it (graph/node.go, graph/graph.go).
use gru.Prelude.{
  ℕ, ◌+◌, String, Option, List, [], ◌∷◌, ◌++◌, ◌==◌, if◌then◌else◌, Map, lookup, insert,
}

pub record Node : Type 0 where
  pub name : String
  pub edges : List ℕ

-- The nodes that were allocated so far have the addresses below `next`.
pub record Heap : Type 0 where
  pub next : ℕ
  pub node : ℕ → Node

abbrev pub name_of : Heap → ℕ → String
name_of h p = (h.node p).name

abbrev pub edges_of : Heap → ℕ → List ℕ
edges_of h p = (h.node p).edges

abbrev pub store : ℕ → Node → Heap → Heap
store p n h = record h { node = λ q. if p == q then n else h.node q }

abbrev pub blank : Heap
blank = record { next = 0; node = λ p. record { name = ""; edges = [] } }

-- node.Edges = es
abbrev pub set_edges : ℕ → List ℕ → Heap → Heap
set_edges p es h = store p (record (h.node p) { edges = es }) h

pub record Graph : Type 0 where
  pub nodes : Map ℕ

abbrev pub new : Graph
new = record { nodes = [] }

unfoldable pub new_node : String → Heap → ℕ × Heap
new_node name h =
    (h.next, store h.next (record { name = name; edges = [] }) (record h { next = h.next + 1 }))

unfoldable pub add_node : Heap → Graph → List ℕ → Graph
add_node h g [] = g
add_node h g (p ∷ ps) = add_node h (record { nodes = insert (name_of h p) p g.nodes }) ps

unfoldable pub add_edge : ℕ → List ℕ → Heap → Heap
add_edge p [] h = h
add_edge p (e ∷ es) h = add_edge p es (set_edges p (edges_of h p ++ e ∷ []) h)

unfoldable pub get_node : Graph → String → Option ℕ
get_node g name = lookup name g.nodes

-- The nodes of a graph, as `range g.Nodes` visits them.
abbrev pub values : Map ℕ → List ℕ
values [] = []
values ((k, p) ∷ ns) = p ∷ values ns

-- ===== src/Graph/Dot.antt =====
-- `AsDot` of graph/graph.go: the representation of a graph in the DOT language.
use gru.Prelude.{ℕ, String, List, [], ◌∷◌, Map, map}
use gru.Graph.Heap.{Heap, Graph, name_of, edges_of}

-- The name of the graph, and for each node a line with its name and the names of its edges.
pub record Dot : Type 0 where
  pub label : String
  pub lines : List (String × List String)

unfoldable pub dot_lines : Heap → Map ℕ → List (String × List String)
dot_lines h [] = []
dot_lines h ((k, p) ∷ ns) = (name_of h p, map (name_of h) (edges_of h p)) ∷ dot_lines h ns

unfoldable pub as_dot : String → Heap → Graph → Dot
unfolding dot_lines
as_dot name h g = record { label = name; lines = dot_lines h g.nodes }

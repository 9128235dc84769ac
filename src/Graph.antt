-- ===== src/Graph.antt =====
-- graph/graph.go and graph/node.go: nodes with edges, and the topological sort.
--
-- A `*Node` is an address in a heap, so that the edges of a node and the graphs that hold it share
-- it as in Go. `Graph.Nodes` is a map from names to addresses. `Sort` removes the nodes from the
-- graph and the edges from the nodes, so it returns the heap and the graph that it leaves.
--
-- The sets of github.com/deckarep/golang-set are the parameter `MapSet`. The loop of `Sort` runs
-- on fuel; one round for each node of the graph is enough.
pub mod Heap
pub mod Sets
pub mod Sort
pub mod Build
pub mod Reversed
pub mod Dot

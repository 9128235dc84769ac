-- ===== src/Catalog/Load.antt =====
-- `Load` of catalog/catalog.go. The Lua interpreter is the parameter `do_file`: what executing the
-- module of the catalog adds to the unsorted resources, or its error.
pub mod Order
pub mod Cycles
pub mod Runnable
pub mod Kept
use gru.Prelude.{ℕ, Option, none, some, List, [], ◌∷◌, ◌++◌, length}
use gru.Errors.{Error, circular_dependency, Result, ok, err, panic, deref, ◌>>=◌}
use gru.Graph.Heap.{Heap, Graph}
use gru.Graph.Sets.{MapSet}
use gru.Graph.Sort.{Sorting, Outcome, sorted, circular, out_of_fuel, sort}
use gru.Graph.Reversed.{reversed}
use gru.Resource.{Resource}
use gru.Resource.Collection.{Collection, create_collection, dependency_graph}
use gru.Catalog.{Config, Catalog, Line, loaded, add}

-- A Go pair of a value and an error, the value being dropped by the caller at an error.
abbrev pub checked {ℓ} : {A : Type ℓ} → A × Option Error → Result A
checked (a, none) = ok a
checked (a, some e) = err e

-- The result of `Sort`. The model's own `out_of_fuel` never occurs (Graph/Sort/Order.antt).
abbrev pub sort_result : Sorting → Result (List ℕ)
sort_result s = elim s.outcome [
  | sorted ps ↦ ok ps
  | circular ps ↦ err circular_dependency
  | out_of_fuel ↦ panic
]

-- A catalog, the heap that its nodes stand in, and what was printed.
pub record Loaded (W : Type 0) : Type 0 where
  pub catalog : Catalog W
  pub heap : Heap
  pub line : Line

module _ (m : MapSet) {W : Type 0} where
  -- Sort, and set the fields of the catalog.
  unfoldable pub set_fields : Catalog W → Collection W → Graph → Graph → Heap → Result (Loaded W)
  set_fields c collection graph back h = do
    let sorting = sort m h graph.nodes
    order ← sort_result sorting
    ok (record {
      catalog = record c { collection = collection; sorted = order; reversed = back };
      heap = sorting.heap;
      line = loaded (length order);
    })

  -- The graph of the collection is reversed before `Sort` takes it apart.
  unfoldable pub build_graphs : Catalog W → Collection W → Heap → Result (Loaded W)
  unfolding set_fields
  build_graphs c collection h = do
    (graph, h₁) ← dependency_graph collection h
    (back, h₂) ← deref (reversed h₁ graph)
    set_fields c collection graph back h₂

  -- From the unsorted resources on.
  unfoldable pub arrange : Catalog W → Heap → Result (Loaded W)
  unfolding build_graphs
  arrange c h = do collection ← checked (create_collection c.unsorted); build_graphs c collection h

  unfoldable pub load :
      (do_file : Config → Result (List (Option (Resource W))))
      → Catalog W
      → Heap
      → Result (Loaded W)
  unfolding arrange
  load do_file c h = do rs ← do_file c.config; arrange (add c rs) h

-- ===== src/Graph/Sort.antt =====
-- `Sort` of graph/graph.go.
pub mod Lemmas
pub mod Invariant
pub mod Rounds
pub mod Order
pub mod Cycles
use gru.Prelude.{
  ℕ, zero, suc, Bool, true, false, List, [], ◌∷◌, ◌++◌, ◌==◌, if◌then◌else◌, Map, remove, length,
}
use gru.Graph.Heap.{Heap, name_of, edges_of, set_edges, values}
use gru.Graph.Sets.{MapSet}

-- What `Sort` returns: the sorted nodes, or the remaining ones with ErrCircularDependency.
-- The model alone has `out_of_fuel`.
pub data Outcome : Type 0 where
  sorted : List ℕ → Outcome
  circular : List ℕ → Outcome
  out_of_fuel : Outcome

-- The outcome, and the heap and the nodes of the graph that are left.
pub record Sorting : Type 0 where
  pub outcome : Outcome
  pub heap : Heap
  pub nodes : Map ℕ

-- Deletes the ready nodes from the graph.
unfoldable pub remove_ready : Heap → List ℕ → Map ℕ → Map ℕ
remove_ready h [] ns = ns
remove_ready h (p ∷ ps) ns = remove_ready h ps (remove (name_of h p) ns)

module _ (m : MapSet) where
  open m use {Set, new_set, add, difference, cardinality, iter}

  -- The nodes with no edges.
  unfoldable pub find_ready : Heap → Map ℕ → Set → Set
  find_ready h [] ready = ready
  find_ready h ((k, p) ∷ ns) ready =
      find_ready h ns (if length (edges_of h p) == 0 then add ready p else ready)

  unfoldable pub add_all : List ℕ → Set → Set
  add_all [] s = s
  add_all (e ∷ es) s = add_all es (add s e)

  -- Removes the ready nodes from the edges of the remaining ones.
  unfoldable pub strip_edges : Set → Map ℕ → Heap → Heap
  strip_edges ready [] h = h
  strip_edges ready ((k, p) ∷ ns) h =
      let kept = difference (add_all (edges_of h p) new_set) ready in
      strip_edges ready ns (set_edges p (iter kept) h)

  unfoldable pub sort_loop : ℕ → Heap → Map ℕ → List ℕ → Sorting
  sort_loop fuel h [] acc = record { outcome = sorted acc; heap = h; nodes = [] }
  sort_loop zero h (n ∷ ns) acc = record { outcome = out_of_fuel; heap = h; nodes = n ∷ ns }
  sort_loop (suc fuel) h (n ∷ ns) acc =
      let ready = find_ready h (n ∷ ns) new_set in
      elim (cardinality ready == 0) [
        | true ↦ record { outcome = circular (values (n ∷ ns)); heap = h; nodes = n ∷ ns }
        | false ↦
            let rest = remove_ready h (iter ready) (n ∷ ns) in
            sort_loop fuel (strip_edges ready rest h) rest (acc ++ iter ready)
      ]

  unfoldable pub sort : Heap → Map ℕ → Sorting
  unfolding sort_loop
  sort h ns = sort_loop (length ns) h ns []

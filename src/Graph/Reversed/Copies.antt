-- ===== src/Graph/Reversed/Copies.antt =====
-- The first loop of `Reversed`: the copies are new nodes, one for each name.
use gru.Prelude.{
  ℕ, String, ◌≡◌, refl, ◌||◌, [], ◌∷◌, arith, Map, lookup, lookup-insert, has_key, is_some,
}
use gru.Graph.Heap.{Heap, name_of, new_node}
use gru.Graph.Sort.Lemmas.{IsKeyed}
use gru.Graph.Build.{
  IsBelow, Building, build_step, start, IsBuilding, build_step-IsBuilding, start-IsBuilding,
}
use gru.Graph.Reversed.{copy_nodes}

copy_nodes-IsBuilding :
    (h₀ : Heap) (ns : Map ℕ) (c : Building) → IsBuilding h₀ c → IsBuilding h₀ (copy_nodes ns c)
unfolding copy_nodes
copy_nodes-IsBuilding h₀ [] c w = w
copy_nodes-IsBuilding h₀ ((k, p) ∷ ns) c w =
    copy_nodes-IsBuilding h₀ ns (build_step (name_of c.heap p) c)
      (build_step-IsBuilding h₀ (name_of c.heap p) c w)

copy_nodes-names :
    (h₀ : Heap) (ns : Map ℕ) (c : Building) (j : String)
    → IsBuilding h₀ c
    → IsKeyed h₀ ns
    → IsBelow h₀.next ns
    → is_some (lookup j (copy_nodes ns c).table) ≡ (has_key j ns || is_some (lookup j c.table))
unfolding copy_nodes new_node
copy_nodes-names h₀ [] c j w keyed below = refl
copy_nodes-names h₀ ((k, p) ∷ ns) c j w keyed below =
    let name = name_of c.heap p in
    ground (
      arith,
      copy_nodes-names h₀ ns (build_step name c) j (build_step-IsBuilding h₀ name c w) keyed.1
          below.1,
      lookup-insert name j c.heap.next c.table,
      w.old p below.0,
      keyed.0,
    )

pub copies-IsBuilding : (h : Heap) (ns : Map ℕ) → IsBuilding h (copy_nodes ns (start h))
copies-IsBuilding h ns = copy_nodes-IsBuilding h ns (start h) (start-IsBuilding h)

-- The copies have the names of the graph.
pub copies_names :
    (h : Heap) (ns : Map ℕ) (j : String)
    → IsKeyed h ns
    → IsBelow h.next ns
    → is_some (lookup j (copy_nodes ns (start h)).table) ≡ has_key j ns
unfolding lookup
copies_names h ns j keyed below =
    ground (arith, copy_nodes-names h ns (start h) j (start-IsBuilding h) keyed below)

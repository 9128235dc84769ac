-- ===== src/Resource/Collection.antt =====
-- resource/collection.go: resources by id, and their dependency graph.
pub mod Connect
pub mod Contract
pub mod Ids
use gru.Prelude.{ℕ, String, Option, none, some, List, [], ◌∷◌, Map, lookup, insert}
use gru.Errors.{Error, duplicate, wants, subscribes, Result, ok, err, panic, deref, or_error, ◌>>=◌}
use gru.Graph.Heap.{Heap, Graph, add_edge}
use gru.Graph.Build.{Building, build_step, start}
use gru.Resource.{Resource}

abbrev pub keys {ℓ} : {V : Type ℓ} → Map V → List String
keys [] = []
keys ((k, v) ∷ m) = k ∷ keys m

abbrev pub Collection : Type 0 → Type 0
Collection W = Map (Resource W)

abbrev pub ids : {W : Type 0} → List (Resource W) → List String
ids [] = []
ids (r ∷ rs) = r.id ∷ ids rs

module _ {W : Type 0} where
  -- The collection is returned beside the error too.
  unfoldable pub add_resources : List (Resource W) → Collection W → Collection W × Option Error
  add_resources [] c = (c, none)
  add_resources (r ∷ rs) c = elim (lookup r.id c) [
    | some _ ↦ (c, some (duplicate r.id))
    | none ↦ add_resources rs (insert r.id r c)
  ]

  unfoldable pub create_collection : List (Resource W) → Collection W × Option Error
  unfolding add_resources
  create_collection rs = add_resources rs []

  -- for id := range c: Go takes the map in any order, which is that of the list here.
  unfoldable pub make_nodes : Collection W → Building → Building
  make_nodes [] b = b
  make_nodes ((id, r) ∷ c) b = make_nodes c (build_step id b)

  -- The loop over the dependencies, and the loop over the subscriptions: they differ in the error.
  unfoldable pub connect :
      Collection W → Map ℕ → String → (String → Error) → List String → Heap → Result Heap
  connect c nodes id missing [] h = ok h
  connect c nodes id missing (d ∷ ds) h = do
    _ ← or_error (lookup d c) (missing d)
    p ← deref (lookup id nodes)
    q ← deref (lookup d nodes)
    connect c nodes id missing ds (add_edge p (q ∷ []) h)

  -- for id, r := range c, in the order of the list: two calls that take the map in different orders
  -- may report different missing ids.
  unfoldable pub connect_all : Collection W → Map ℕ → Collection W → Heap → Result Heap
  unfolding connect
  connect_all c nodes [] h = ok h
  connect_all c nodes ((id, r) ∷ rs) h = do
    h₁ ← connect c nodes id (wants id) r.dependencies h
    h₂ ← connect c nodes id (subscribes id) (keys r.subscribed_to) h₁
    connect_all c nodes rs h₂

  unfoldable pub dependency_graph : Collection W → Heap → Result (Graph × Heap)
  unfolding make_nodes connect_all
  dependency_graph c h =
      let b = make_nodes c (start h) in do h' ← connect_all c b.table c b.heap; ok (b.graph, h')

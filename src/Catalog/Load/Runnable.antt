-- ===== src/Catalog/Load/Runnable.antt =====
-- The outcome of `Load` once the Lua module has been executed.
use gru.Prelude.{
  ℕ, ◌<◌, String, ◌≡◌, refl, ◌∙◌, sym, subst, true, false, Option, none, some, List, [], arith, Map,
  lookup, is_some, mem_str, inl, inr, elem, ◌⊎◌, ap, length,
}
use gru.Errors.{Error, circular_dependency, duplicate, Result, ok, err, panic, deref, ◌>>=◌}
use gru.Graph.Heap.{Heap, Graph, values}
use gru.Graph.Build.{IsDistinct-of-map}
use gru.Graph.Sets.{MapSet}
use gru.Graph.Sort.{Outcome, sorted, circular, out_of_fuel, sort}
use gru.Graph.Sort.Rounds.{IsGraph, EndsAs, sort-Ends}
use gru.Graph.Sort.Order.{node-sort}
use gru.Graph.Reversed.{reversed}
use gru.Graph.Reversed.Contract.{IsReverse, reversed-IsReverse}
use gru.Resource.{Resource}
use gru.Resource.Collection.{Collection, ids, create_collection, dependency_graph}
use gru.Resource.Collection.Connect.{AllPresent, IsMissing}
use gru.Resource.Collection.Contract.{IsGraphOf, GraphOf, dependency_graph-GraphOf}
use gru.Resource.Collection.Ids.{Added, create_collection-Added, twice, find_id, id_of_find}
use gru.Catalog.{Catalog, loaded}
use gru.Catalog.Load.{Loaded, checked, sort_result, set_fields, build_graphs, arrange}
use gru.Catalog.Load.Cycles.{IsCyclic, IsStuck-IsCyclic}
use gru.Catalog.Load.Order.{IsKeyed-old, IsArranged-IsReady}
use gru.Catalog.Execute.{Shared}
use gru.Catalog.Execute.Safety.{AllReturn}
use gru.Catalog.Run.{Running, Reach, start, IsDone}
use gru.Catalog.Run.Safety.{run_alive, run_done}
use gru.Catalog.Run.Invariant.{names, IsReady}

module _ {W : Type 0} where
  -- The outcome for a collection.
  abbrev pub Arranged : Collection W → Result (Loaded W) → Type 0
  Arranged c (ok l) = (l.catalog.collection ≡ c) × IsReady l.heap l.catalog [] l.catalog.sorted
  Arranged c (err e) = IsMissing c c e ⊎ ((e ≡ circular_dependency) × IsCyclic c)
  Arranged c panic = ⊥

  module _ (m : MapSet) (c : Catalog W) (coll : Collection W)
      (own : (k : String) (r : Resource W) → lookup k coll ≡ some r → r.id ≡ k) where
    graph_kept :
        (g back : Graph) (h₁ h₂ : Heap)
        → IsGraphOf coll g h₁
        → IsReverse h₁ g.nodes back h₂
        → IsGraph h₂ g.nodes
    graph_kept g back h₁ h₂ graph reverse =
        let keyed =
          IsKeyed-old h₁ h₂ h₁.next g.nodes reverse.untouched graph.whole.below graph.whole.keyed in
        record { keyed = keyed; distinct = IsDistinct-of-map h₂ g.nodes keyed graph.map }

    abbrev fields : Graph → List ℕ → Catalog W
    fields back order = record c { collection = coll; sorted = order; reversed = back }

    sorted-Arranged :
        (g back : Graph) (h₁ h₂ : Heap) (o : Outcome) (h : Heap) (left : Map ℕ)
        → AllPresent coll coll
        → IsGraphOf coll g h₁
        → IsReverse h₁ g.nodes back h₂
        → EndsAs h₂ g.nodes o h left
        → ((a : ℕ) → elem a (values g.nodes) ≡ false → h.node a ≡ h₂.node a)
        → Arranged coll (
            sort_result (record { outcome = o; heap = h; nodes = left }) >>= λ order.
            ok (record { catalog = fields back order; heap = h; line = loaded (length order) }))
    sorted-Arranged g back h₁ h₂ (sorted ps) h left present graph reverse (none_left, inv) others =
        (
          refl,
          IsArranged-IsReady h (fields back ps) g h₁ h₂ (record {
            own = own;
            present = present;
            graph = graph;
            reverse = reverse;
            members = λ a. ground (arith, inv.split a);
            ordered = inv.ordered;
            names = inv.names;
            others = others;
          }),
        )
    sorted-Arranged g back h₁ h₂ (circular ps) h left present graph reverse (_, stuck) others =
        inr (
          refl,
          IsStuck-IsCyclic m coll g back h₁ h₂ graph reverse (graph_kept g back h₁ h₂ graph reverse)
              h left stuck,
        )
    sorted-Arranged g back h₁ h₂ out_of_fuel h left present graph reverse ends others = ends

    set_fields-Arranged :
        (g back : Graph) (h₁ h₂ : Heap)
        → AllPresent coll coll
        → IsGraphOf coll g h₁
        → IsReverse h₁ g.nodes back h₂
        → Arranged coll (set_fields m c coll g back h₂)
    unfolding set_fields
    set_fields-Arranged g back h₁ h₂ present graph reverse =
        sorted-Arranged g back h₁ h₂ (sort m h₂ g.nodes).outcome (sort m h₂ g.nodes).heap
          (sort m h₂ g.nodes).nodes present graph reverse
          (sort-Ends m h₂ g.nodes (graph_kept g back h₁ h₂ graph reverse)) (node-sort m h₂ g.nodes)

    build_graphs-Arranged : (h : Heap) → Arranged coll (build_graphs m c coll h)
    unfolding build_graphs
    build_graphs-Arranged h = graphs (dependency_graph coll h) (dependency_graph-GraphOf coll h)
      where
        graphs :
            (r : Result (Graph × Heap))
            → GraphOf coll r
            → Arranged coll (
                r >>= λ (graph, h₁).
                deref (reversed h₁ graph) >>= λ (back, h₂). set_fields m c coll graph back h₂)
        graphs (ok (g, h₁)) w =
            let (back, h₂, done, reverse) = reversed-IsReverse h₁ g w.1.whole in
            rw done (set_fields-Arranged g back h₁ h₂ w.0 w.1 reverse)
        graphs (err e) w = inl w
        graphs panic w = w

  pub arrange-Arranged :
      (m : MapSet) (c : Catalog W) (h : Heap)
      → ((k : String) × (twice k (ids c.unsorted) ≡ true) × (arrange m c h ≡ err (duplicate k)))
        ⊎ (((k : String) → twice k (ids c.unsorted) ≡ false)
            × ((k : String) → lookup k (create_collection c.unsorted).0 ≡ find_id k c.unsorted)
            × Arranged (create_collection c.unsorted).0 (arrange m c h))
  unfolding arrange lookup
  arrange-Arranged m c h =
      collections (create_collection c.unsorted) (create_collection-Added c.unsorted)
    where
      collections :
          (p : Collection W × Option Error)
          → Added c.unsorted [] p
          → ((k : String) × (twice k (ids c.unsorted) ≡ true)
              × ((checked p >>= λ collection. build_graphs m c collection h) ≡ err (duplicate k)))
            ⊎ (((k : String) → twice k (ids c.unsorted) ≡ false)
                × ((k : String) → lookup k p.0 ≡ find_id k c.unsorted)
                × Arranged p.0 (checked p >>= λ collection. build_graphs m c collection h))
      collections (coll, none) w =
          let found : (k : String) → lookup k coll ≡ find_id k c.unsorted = λ k. w.1 k in
          inr (
            λ k. ground (arith, w.2 k),
            found,
            build_graphs-Arranged m c coll (λ k r e. id_of_find k c.unsorted r (sym (found k) ∙ e))
                h,
          )
      collections (coll, some e) w = inl (w.0, ground (arith, w.2), ap err w.1)

module _ {W : Type 0} (m : MapSet) (c : Catalog W) (h : Heap) (l : Loaded W)
    (loads : arrange m c h ≡ ok l) where
  arrange-IsReady : IsReady l.heap l.catalog [] l.catalog.sorted
  arrange-IsReady = elim (arrange-Arranged m c h) [
    | inl (k, again, fails) ↦ absurd (cc (loads, fails))
    | inr (once, found, w) ↦ (subst (Arranged (create_collection c.unsorted).0) loads w).1
  ]

  module _ (sound : AllReturn l.catalog.collection) (s : Shared W) where
    -- If no resource of the catalog dereferences nil in its own methods, no interleaving of the run
    -- of a loaded catalog dereferences nil.
    pub loaded_run_alive :
        (t : Running W) → Reach l.heap l.catalog (start l.heap l.catalog s) t → t.panicked ≡ false
    loaded_run_alive t reach = run_alive l.heap l.catalog sound s arrange-IsReady t reach

    -- With a worker, and if no resource of the catalog dereferences nil in its own methods: when the
    -- run of a loaded catalog has ended, whatever the order of the steps, each resource in the order
    -- of the catalog has a status item.
    pub loaded_run_done :
        (t : Running W)
        → Reach l.heap l.catalog (start l.heap l.catalog s) t
        → 0 < l.catalog.config.concurrency
        → IsDone l.heap l.catalog t
        → (d : String) → mem_str d (names l.heap l.catalog.sorted) ≡ true
        → is_some (lookup d t.shared.status) ≡ true
    loaded_run_done t reach busy done d =
        run_done l.heap l.catalog sound s arrange-IsReady t reach busy done d

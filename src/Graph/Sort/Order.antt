-- ===== src/Graph/Sort/Order.antt =====
-- What `Sort` promises when it succeeds.
use gru.Prelude.{
  String, remove, ℕ, zero, suc, ◌≡◌, refl, ◌≢◌, ◌∙◌, false, List, [], ◌∷◌, ◌++◌, arith, Map, elem,
  Unique, subst, ◌==◌, Bool-cases, inl, inr, length,
}
use gru.Graph.Heap.{Heap, values, name_of}
use gru.Graph.Sets.{MapSet}
use gru.Graph.Sort.{sorted, out_of_fuel, sort_loop, sort, find_ready, remove_ready, strip_edges}
use gru.Graph.Sort.Lemmas.{node-strip_edges}
use gru.Graph.Sort.Invariant.{Inv, IsOrdered}
use gru.Graph.Sort.Rounds.{IsGraph, EndsAs, sort-Ends}

module _ (m : MapSet) (h : Heap) (ns : Map ℕ) (g : IsGraph h ns) where
  open m use {new_set, iter, cardinality}

  pub sort-sorted :
      (ps : List ℕ)
      → (sort m h ns).outcome ≡ sorted ps
      → ((sort m h ns).nodes ≡ []) × Inv h ns (sort m h ns).heap [] ps
  sort-sorted ps e =
      subst (λ o. EndsAs h ns o (sort m h ns).heap (sort m h ns).nodes) e (sort-Ends m h ns g)

  -- For a graph whose nodes stand under their own names: on success the result holds exactly the
  -- nodes of the graph, each of them once, and the graph is left empty.
  pub sort-perm :
      (ps : List ℕ)
      → (sort m h ns).outcome ≡ sorted ps
      → Unique ps × ((a : ℕ) → elem a ps ≡ elem a (values ns)) × ((sort m h ns).nodes ≡ [])
  sort-perm ps e =
      let (left, inv) = sort-sorted ps e in (inv.once, λ a. ground (arith, inv.split a), left)

  -- For a graph whose nodes stand under their own names: on success every node in the result stands
  -- behind all the nodes that it has edges to.
  pub sort-IsOrdered : (ps : List ℕ) → (sort m h ns).outcome ≡ sorted ps → IsOrdered h [] ps
  sort-IsOrdered ps e = let (left, inv) = sort-sorted ps e in inv.ordered

  -- For a graph whose nodes stand under their own names, the loop ends within one round for each
  -- node of the graph.
  pub sort-ne-out_of_fuel : (sort m h ns).outcome ≢ out_of_fuel
  sort-ne-out_of_fuel e =
      subst (λ o. EndsAs h ns o (sort m h ns).heap (sort m h ns).nodes) e (sort-Ends m h ns g)

elem-values-remove :
    (ns : Map ℕ) (k : String) (a : ℕ)
    → elem a (values ns) ≡ false
    → elem a (values (remove k ns)) ≡ false
unfolding remove
elem-values-remove [] k a e = e
elem-values-remove ((j, p) ∷ ns) k a e = ground (arith, elem-values-remove ns k a)

elem-values-remove_ready :
    (h : Heap) (ps : List ℕ) (ns : Map ℕ) (a : ℕ)
    → elem a (values ns) ≡ false
    → elem a (values (remove_ready h ps ns)) ≡ false
unfolding remove_ready
elem-values-remove_ready h [] ns a e = e
elem-values-remove_ready h (p ∷ ps) ns a e =
    elem-values-remove_ready h ps (remove (name_of h p) ns) a
      (elem-values-remove ns (name_of h p) a e)

module _ (m : MapSet) where
  open m use {new_set, iter, cardinality}

  sort_loop-node :
      (fuel : ℕ) (h : Heap) (ns : Map ℕ) (acc : List ℕ) (a : ℕ)
      → elem a (values ns) ≡ false
      → (sort_loop m fuel h ns acc).heap.node a ≡ h.node a
  unfolding sort_loop
  sort_loop-node fuel h [] acc a e = refl
  sort_loop-node zero h (n ∷ ns) acc a e = refl
  sort_loop-node (suc fuel) h (n ∷ ns) acc a e =
      let ready = find_ready m h (n ∷ ns) new_set in
      let rest = remove_ready h (iter ready) (n ∷ ns) in
      let out = elem-values-remove_ready h (iter ready) (n ∷ ns) a e in
      elim (Bool-cases (cardinality ready == 0)) [
        | inl none_ready ↦ rw (none_ready, sort_loop)
        | inr some_ready ↦
            rw (some_ready, sort_loop)
              (sort_loop-node fuel (strip_edges m ready rest h) rest (acc ++ iter ready) a out
                ∙ node-strip_edges m ready rest h a out)
      ]

  -- Sorting a graph changes no node outside it, whatever the outcome.
  pub node-sort :
      (h : Heap) (ns : Map ℕ) (a : ℕ)
      → elem a (values ns) ≡ false
      → (sort m h ns).heap.node a ≡ h.node a
  unfolding sort
  node-sort h ns a e = sort_loop-node (length ns) h ns [] a e

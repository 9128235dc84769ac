-- ===== src/Graph/Sort/Cycles.antt =====
-- When `Sort` reports ErrCircularDependency, and what it returns then.
use gru.Prelude.{
  ℕ, zero, suc, ◌≡◌, refl, ◌≢◌, ◌<◌, true, false, List, [], ◌∷◌, arith, Map, elem, subst, ap, ◌⊎◌,
  ◌==◌, ==_iff, Bool-cases, inl, inr, length,
}
use gru.Graph.Heap.{Heap, edges_of, values}
use gru.Graph.Sets.{MapSet}
use gru.Graph.Sort.{Outcome, sorted, circular, out_of_fuel, sort}
use gru.Graph.Sort.Rounds.{IsGraph, IsStuck, EndsAs, sort-Ends}
use gru.Graph.Sort.Order.{sort-ne-out_of_fuel}

-- Every edge leads to a node of the graph.
abbrev pub IsClosed : Heap → Map ℕ → Type 0
IsClosed h ns =
    (p q : ℕ) → elem p (values ns) ≡ true → elem q (edges_of h p) ≡ true → elem q (values ns) ≡ true

-- `rank` falls along every edge, so the graph has no cycle.
abbrev pub IsRanked : (ℕ → ℕ) → Heap → Map ℕ → Type 0
IsRanked rank h ns =
    (p q : ℕ) → elem p (values ns) ≡ true → elem q (edges_of h p) ≡ true → rank q < rank p

first_edge : (xs : List ℕ) → (length xs == 0) ≡ false → (q : ℕ) × (elem q xs ≡ true)
first_edge [] e = absurd (ground (arith, e))
first_edge (x ∷ xs) e = (x, ground (arith, ==_iff x x))

pub nonempty_values : (ns : Map ℕ) → ns ≢ [] → (p : ℕ) × (elem p (values ns) ≡ true)
nonempty_values [] e = absurd (e refl)
nonempty_values ((k, p) ∷ ns) e = (p, ground (arith, ==_iff p p))

Outcome-cases :
    (o : Outcome)
    → ((ps : List ℕ) × (o ≡ sorted ps)) ⊎ (((ps : List ℕ) × (o ≡ circular ps)) ⊎ (o ≡ out_of_fuel))
Outcome-cases (sorted ps) = inl (ps, refl)
Outcome-cases (circular ps) = inr (inl (ps, refl))
Outcome-cases out_of_fuel = inr (inr refl)

module _ (m : MapSet) (h : Heap) (ns : Map ℕ) (g : IsGraph h ns) where
  sort-circular :
      (ps : List ℕ)
      → (sort m h ns).outcome ≡ circular ps
      → (ps ≡ values (sort m h ns).nodes) × IsStuck h ns (sort m h ns).heap (sort m h ns).nodes
  sort-circular ps e =
      subst (λ o. EndsAs h ns o (sort m h ns).heap (sort m h ns).nodes) e (sort-Ends m h ns g)

  module _ (closed : IsClosed h ns) (h' : Heap) (ns' : Map ℕ) (stuck : IsStuck h ns h' ns') where
    open stuck use {inv, left, blocked}

    -- A node that is left has an edge to another one that is left.
    pub next_left :
        (p : ℕ)
        → elem p (values ns') ≡ true
        → (q : ℕ) × (elem q (edges_of h p) ≡ true) × (elem q (values ns') ≡ true)
    next_left p e =
        let (q, eq) = first_edge (edges_of h' p) (blocked p e) in
        (
          q,
          ground (arith, inv.edges p q),
          ground (arith, inv.edges p q, inv.split q, inv.split p, closed p q),
        )

  -- For a graph whose nodes stand under their own names and whose edges stay inside it: on a cycle
  -- error the result is not empty, holds only nodes of the graph, and each node in it has an edge
  -- to a node in it.
  pub sort-circular_edges :
      IsClosed h ns
      → (ps : List ℕ) → (sort m h ns).outcome ≡ circular ps
      → (ps ≢ [])
        × ((p : ℕ) → elem p ps ≡ true → elem p (values ns) ≡ true)
        × ((p : ℕ)
            → elem p ps ≡ true
            → (q : ℕ) × (elem q (edges_of h p) ≡ true) × (elem q ps ≡ true))
  sort-circular_edges closed ps e =
      let (named, stuck) = sort-circular ps e in
      let (p, left) = nonempty_values (sort m h ns).nodes stuck.left in
      (
        λ none_left. cc (named, none_left, left),
        λ p ep. ground (arith, stuck.inv.split p, ap (elem p) named),
        λ p ep.
            rw named
              (next_left closed (sort m h ns).heap (sort m h ns).nodes stuck p (rw (← named) ep)),
      )

  descent :
      (rank : ℕ → ℕ)
      → IsClosed h ns
      → IsRanked rank h ns
      → (h' : Heap) (ns' : Map ℕ) → IsStuck h ns h' ns'
      → (n p : ℕ) → rank p < n
      → elem p (values ns') ≡ false
  descent rank closed ranked h' ns' stuck zero p lt = absurd (omega arith)
  descent rank closed ranked h' ns' stuck (suc n) p lt = elim (Bool-cases (elem p (values ns'))) [
    | inr done ↦ done
    | inl waits ↦
        let (q, edge, left) = next_left closed h' ns' stuck p waits in
        let inside : elem p (values ns) ≡ true = ground (arith, stuck.inv.split p) in
        let less : rank q < rank p = ranked p q inside edge in
        let done : elem q (values ns') ≡ false =
          descent rank closed ranked h' ns' stuck n q (omega arith) in
        absurd (cc (done, left))
  ]

  -- A graph whose nodes stand under their own names, whose edges stay inside it and fall in some
  -- rank, so that it has no cycle, is sorted without an error.
  pub sort_of_ranked :
      (rank : ℕ → ℕ)
      → IsClosed h ns
      → IsRanked rank h ns
      → (ps : List ℕ) × ((sort m h ns).outcome ≡ sorted ps)
  sort_of_ranked rank closed ranked = elim (Outcome-cases (sort m h ns).outcome) [
    | inl success ↦ success
    | inr (inl (ps, e)) ↦
        let (named, stuck) = sort-circular ps e in
        let (p, waits) = nonempty_values (sort m h ns).nodes stuck.left in
        let done =
          descent rank closed ranked (sort m h ns).heap (sort m h ns).nodes stuck (suc (rank p)) p
            (omega arith) in
        absurd (cc (done, waits))
    | inr (inr e) ↦ absurd (sort-ne-out_of_fuel m h ns g e)
  ]

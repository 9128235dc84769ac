-- ===== src/Catalog/Load/Cycles.antt =====
-- What stands behind the ErrCircularDependency of `Load`.
use gru.Prelude.{
  ℕ, String, ◌≡◌, ◌≢◌, ◌∙◌, sym, true, List, [], ◌∷◌, arith, Map, mem_str, elem, ==_iff, eq_iff, ap,
  subst, Bool-cases, str_eq, inl, inr, lookup, some,
}
use gru.Graph.Heap.{Heap, Graph, name_of, edges_of, values}
use gru.Graph.Build.{lookup_of_elem}
use gru.Graph.Sort.Rounds.{IsGraph, IsStuck}
use gru.Graph.Sort.Cycles.{IsClosed, next_left, nonempty_values}
use gru.Graph.Sets.{MapSet}
use gru.Graph.Reversed.Contract.{IsReverse, below_of_elem}
use gru.Resource.Collection.{Collection}
use gru.Resource.Collection.Contract.{needs, IsGraphOf}
use gru.Catalog.Run.Invariant.{names}

-- Some resources of the collection each need one of them, so that what they need leads round a cycle.
pub IsCyclic : {W : Type 0} → Collection W → Type 0
IsCyclic c =
    (ks : List String) × (ks ≢ [])
    × ((a : String)
        → mem_str a ks ≡ true
        → (b : String) × (mem_str b ks ≡ true) × (needs c a b ≡ true))

node_of_name :
    (h : Heap) (a : String) (ps : List ℕ)
    → mem_str a (names h ps) ≡ true
    → (p : ℕ) × (elem p ps ≡ true) × (name_of h p ≡ a)
node_of_name h a [] m = absurd (cc m)
node_of_name h a (p ∷ ps) m = elim (Bool-cases (str_eq (name_of h p) a)) [
  | inl e ↦ (p, ground (arith, ==_iff p p), ground (arith, e, eq_iff (name_of h p) a))
  | inr e ↦
      let (q, inside, named) = node_of_name h a ps (ground (arith, m, e)) in
      (q, ground (arith, inside), named)
]

name_of_node :
    (h : Heap) (p : ℕ) (ps : List ℕ) → elem p ps ≡ true → mem_str (name_of h p) (names h ps) ≡ true
name_of_node h p [] m = absurd (cc m)
name_of_node h p (q ∷ ps) m = ground (
  arith,
  m,
  name_of_node h p ps,
  ==_iff p q,
  eq_iff (name_of h q) (name_of h p),
  ap (name_of h) {x = p} {y = q},
)

module _ (m : MapSet) {W : Type 0} (c : Collection W) (g back : Graph) (h₁ h₂ : Heap)
    (graph : IsGraphOf c g h₁) (reverse : IsReverse h₁ g.nodes back h₂)
    (whole : IsGraph h₂ g.nodes) where
  same_edges : (p : ℕ) → elem p (values g.nodes) ≡ true → edges_of h₂ p ≡ edges_of h₁ p
  same_edges p e =
      ap (λ n. n.edges) (reverse.untouched p (below_of_elem h₁.next p g.nodes graph.whole.below e))

  still-IsClosed : IsClosed h₂ g.nodes
  still-IsClosed p q e edge =
      graph.whole.closed p q e (subst (λ es. elem q es ≡ true) (same_edges p e) edge)

  -- The nodes that `Sort` cannot take out are such resources.
  pub IsStuck-IsCyclic : (h : Heap) (left : Map ℕ) → IsStuck h₂ g.nodes h left → IsCyclic c
  unfolding IsCyclic
  IsStuck-IsCyclic h left stuck =
      let (p, first) = nonempty_values left stuck.left in
      (
        names h₁ (values left),
        λ empty. cc (ap (mem_str (name_of h₁ p)) empty, name_of_node h₁ p (values left) first),
        λ a named.
            let (p, e, at_p) = node_of_name h₁ a (values left) named in
            let (q, edge, f) = next_left m h₂ g.nodes whole still-IsClosed h left stuck p e in
            let inside : (r : ℕ) → elem r (values left) ≡ true → elem r (values g.nodes) ≡ true =
              λ r r_left. ground (arith, stuck.inv.split r, r_left) in
            let node : (r : ℕ)
                → elem r (values left) ≡ true
                → lookup (name_of h₁ r) g.nodes ≡ some r =
              λ r r_left.
                lookup_of_elem h₁ g.nodes r graph.whole.keyed graph.map (inside r r_left) in
            (
              name_of h₁ q,
              name_of_node h₁ q (values left) f,
              rw (← at_p) (
                  sym (graph.edges (name_of h₁ p) (name_of h₁ q) p q (node p e) (node q f))
                  ∙ subst (λ es. elem q es ≡ true) (same_edges p (inside p e)) edge),
            ),
      )

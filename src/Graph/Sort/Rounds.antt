-- ===== src/Graph/Sort/Rounds.antt =====
-- The loop of `Sort` from a state with the invariant: it never runs out of fuel, and ends with
-- the invariant.
use gru.Prelude.{
  ℕ, zero, suc, ◌≤◌, ◌<◌, ◌≡◌, refl, ◌≢◌, true, false, List, [], ◌∷◌, ◌++◌, arith, ◌==◌, ==_iff,
  Map, length, elem, inl, inr, Bool-cases, remove,
}
use gru.Graph.Heap.{Heap, name_of, values}
use gru.Graph.Sets.{MapSet}
use gru.Graph.Sort.{
  remove_ready, find_ready, strip_edges, sort_loop, sort, Sorting, Outcome, sorted, circular,
  out_of_fuel,
}
use gru.Graph.Sort.Lemmas.{IsKeyed, no_edges, length-remove_ready, length-remove_self}
use gru.Graph.Sort.Invariant.{IsDistinct, Inv, elem_of_empty, elem-ready, round-Inv}

-- The nodes of the graph stand under their names, and each name has one node.
pub record IsGraph (h : Heap) (ns : Map ℕ) : Type 0 where
  pub keyed : IsKeyed h ns
  pub distinct : IsDistinct h ns

module _ (h₀ : Heap) (ns₀ : Map ℕ) where
  -- The graph at a cycle error: nodes are left, and each of them has an edge left.
  pub record IsStuck (h : Heap) (ns : Map ℕ) : Type 0 where
    pub acc : List ℕ
    pub inv : Inv h₀ ns₀ h ns acc
    pub left : ns ≢ []
    pub blocked : (p : ℕ) → elem p (values ns) ≡ true → no_edges h p ≡ false

  abbrev pub EndsAs : Outcome → Heap → Map ℕ → Type 0
  EndsAs (sorted ps) h ns = (ns ≡ []) × Inv h₀ ns₀ h [] ps
  EndsAs (circular ps) h ns = (ps ≡ values ns) × IsStuck h ns
  EndsAs out_of_fuel h ns = ⊥

  abbrev pub Ends : Sorting → Type 0
  Ends s = EndsAs s.outcome s.heap s.nodes

length-rest :
    (h : Heap) (ps : List ℕ) (ns : Map ℕ)
    → IsKeyed h ns
    → (length ps == 0) ≡ false
    → ((p : ℕ) → elem p ps ≡ true → elem p (values ns) ≡ true)
    → length (remove_ready h ps ns) < length ns
unfolding remove_ready
length-rest h [] ns w e sub = absurd (ground (arith, e))
length-rest h (p ∷ ps) ns w e sub = omega (
  arith,
  length-remove_ready h ps (remove (name_of h p) ns),
  length-remove_self h ns p w (sub p (ground (arith, ==_iff p p))),
)

Inv-start : (h : Heap) (ns : Map ℕ) → IsKeyed h ns → Inv h ns h ns []
Inv-start h ns keyed = record {
  names = λ a. refl;
  keyed = keyed;
  split = λ a. refl;
  apart = λ a e. cc;
  once = tt;
  edges = λ p q e. ground arith;
  ordered = tt;
}

module _ (m : MapSet) where
  open m use {new_set, iter, cardinality, cardinality_lem}

  sort_loop-Ends :
      (h₀ : Heap) (ns₀ : Map ℕ)
      → IsDistinct h₀ ns₀
      → (fuel : ℕ) (h : Heap) (ns : Map ℕ) (acc : List ℕ) → length ns ≤ fuel
      → Inv h₀ ns₀ h ns acc
      → Ends h₀ ns₀ (sort_loop m fuel h ns acc)
  unfolding sort_loop
  sort_loop-Ends h₀ ns₀ d fuel h [] acc enough inv = (refl, inv)
  sort_loop-Ends h₀ ns₀ d zero h (n ∷ ns) acc enough inv = absurd (omega arith)
  sort_loop-Ends h₀ ns₀ d (suc fuel) h (n ∷ ns) acc enough inv =
      let all : Map ℕ = n ∷ ns in
      let ready = find_ready m h all new_set in
      let rest = remove_ready h (iter ready) all in
      elim (Bool-cases (cardinality ready == 0)) [
        | inl none_ready ↦
            rw (none_ready, sort_loop)
              (
                refl,
                record {
                  acc = acc;
                  inv = inv;
                  left = λ e. cc;
                  blocked = λ p e. ground (
                    arith,
                    none_ready,
                    cardinality_lem ready,
                    elem-ready m h₀ ns₀ d h all acc inv p,
                    elem_of_empty (iter ready) p,
                  );
                },
              )
        | inr some_ready ↦
            rw (some_ready, sort_loop)
              (sort_loop-Ends h₀ ns₀ d fuel (strip_edges m ready rest h) rest (acc ++ iter ready)
                (omega (
                  arith,
                  length-rest h (iter ready) all inv.keyed
                      (ground (arith, some_ready, cardinality_lem ready))
                      (λ p e. ground (arith, elem-ready m h₀ ns₀ d h all acc inv p)),
                ))
                (round-Inv m h₀ ns₀ d h all acc inv))
      ]

  pub sort-Ends : (h : Heap) (ns : Map ℕ) → IsGraph h ns → Ends h ns (sort m h ns)
  unfolding sort
  sort-Ends h ns g =
      sort_loop-Ends h ns g.distinct (length ns) h ns [] (omega arith) (Inv-start h ns g.keyed)

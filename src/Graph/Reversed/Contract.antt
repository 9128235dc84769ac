-- ===== src/Graph/Reversed/Contract.antt =====
-- What `Reversed` promises for a graph whose edges stay inside it.
use gru.Prelude.{
  ℕ, ◌≤◌, ◌<◌, String, ◌≡◌, refl, ◌∙◌, sym, true, Option, none, some, List, [], ◌∷◌, arith, ◌==◌,
  ==_iff, Map, lookup, has_key, is_some, elem, inl, inr, ap, Bool-cases,
}
use gru.Graph.Heap.{Heap, name_of, edges_of, Graph, values}
use gru.Graph.Sort.Lemmas.{IsKeyed}
use gru.Graph.Sort.Cycles.{IsClosed}
use gru.Graph.Build.{is_at, is_at-lookup, has_key_of_elem, IsBelow, Building, IsBuilding, start}
use gru.Graph.Reversed.{copy_nodes, reversed}
use gru.Graph.Reversed.Copies.{copies-IsBuilding, copies_names}
use gru.Graph.Reversed.Edges.{leads, turned, IsTurned, turn_all-IsTurned, edge_named, points}

-- The nodes of the graph are allocated and stand under their names, and the edges stay inside.
pub record IsWhole (h : Heap) (ns : Map ℕ) : Type 0 where
  pub keyed : IsKeyed h ns
  pub below : IsBelow h.next ns
  pub closed : IsClosed h ns

-- The graph `g` is the reverse of `ns`, built beside it in the heap.
pub record IsReverse (h : Heap) (ns : Map ℕ) (g : Graph) (h' : Heap) : Type 0 where
  pub untouched : (p : ℕ) → p < h.next → h'.node p ≡ h.node p
  pub nodes : (k : String) → is_some (lookup k g.nodes) ≡ has_key k ns
  pub fresh : (k : String) (q : ℕ) → lookup k g.nodes ≡ some q → (h.next ≤ q) × (name_of h' q ≡ k)
  pub edges :
      (a b : String) (y q : ℕ)
      → lookup a g.nodes ≡ some y
      → lookup b g.nodes ≡ some q
      → elem y (edges_of h' q) ≡ points h ns a b
  pub inside :
      (b : String) (y q : ℕ)
      → lookup b g.nodes ≡ some q
      → elem y (edges_of h' q) ≡ true
      → (a : String) × (lookup a g.nodes ≡ some y)

pub below_of_elem : (n p : ℕ) (ns : Map ℕ) → IsBelow n ns → elem p (values ns) ≡ true → p < n
below_of_elem n p [] below m = absurd (cc (m))
below_of_elem n p ((k, r) ∷ ns) below m =
    ground (arith, below.0, below_of_elem n p ns below.1, ==_iff p r)

module _ (name : ℕ → String) (copies : Map ℕ)
    (named : (k : String) (q : ℕ) → lookup k copies ≡ some q → name q ≡ k) where
  leads-edge_named :
      (h : Heap) (es : List ℕ) (b : String) (q : ℕ)
      → ((a : ℕ) → elem a es ≡ true → name_of h a ≡ name a)
      → lookup b copies ≡ some q
      → leads name copies es q ≡ edge_named h b es
  leads-edge_named h [] b q same e = refl
  leads-edge_named h (x ∷ es) b q same e = ground (
    arith,
    is_at-lookup name copies named b (name x) q e,
    same x,
    ==_iff x x,
    leads-edge_named h es b q (λ a m. same a (ground (arith, m))) e,
  )

  turned-points :
      (h : Heap) (ns : Map ℕ) (a b : String) (y q : ℕ)
      → ((p : ℕ) → elem p (values ns) ≡ true → name_of h p ≡ name p)
      → ((p e : ℕ)
          → elem p (values ns) ≡ true
          → elem e (edges_of h p) ≡ true
          → name_of h e ≡ name e)
      → lookup a copies ≡ some y
      → lookup b copies ≡ some q
      → turned name (edges_of h) copies ns y q ≡ points h ns a b
  turned-points h [] a b y q same near ea eb = refl
  turned-points h ((k, p) ∷ ns) a b y q same near ea eb =
      let self : (p == p) ≡ true = ground (arith, ==_iff p p) in
      ground (
        arith,
        is_at-lookup name copies named a (name p) y ea,
        same p,
        self,
        leads-edge_named h (edges_of h p) b q (λ e m. near p e (ground (arith, self)) m) eb,
        turned-points h ns a b y q (λ r m. same r (ground (arith, m)))
            (λ r e m n. near r e (ground (arith, m)) n) ea eb,
      )

  turned_copied :
      (edges : ℕ → List ℕ) (ns : Map ℕ) (y q : ℕ)
      → turned name edges copies ns y q ≡ true
      → (a : String) × (lookup a copies ≡ some y)
  turned_copied edges [] y q e = absurd (cc (e))
  turned_copied edges ((k, p) ∷ ns) y q e = elim (Bool-cases (is_at (lookup (name p) copies) y)) [
    | inl here ↦ (name p, is_at-some (lookup (name p) copies) y here)
    | inr other ↦ turned_copied edges ns y q (ground (arith, other, e))
  ]
    where
      is_at-some : (o : Option ℕ) (y : ℕ) → is_at o y ≡ true → o ≡ some y
      is_at-some none y e = absurd (cc (e))
      is_at-some (some x) y e = ground (arith, ==_iff x y, e)

is_some_of_has_key :
    (h : Heap) (ns : Map ℕ) (p : ℕ)
    → IsWhole h ns
    → elem p (values ns) ≡ true
    → is_some (lookup (name_of h p) (copy_nodes ns (start h)).table) ≡ true
is_some_of_has_key h ns p w m =
    copies_names h ns (name_of h p) w.keyed w.below ∙ has_key_of_elem h ns p w.keyed m

module _ (h : Heap) (g : Graph) (w : IsWhole h g.nodes) where
  abbrev copied : Building
  copied = copy_nodes g.nodes (start h)

  abbrev made : IsBuilding h copied
  made = copies-IsBuilding h g.nodes

  abbrev name_at : ℕ → String
  name_at a = name_of copied.heap a

  abbrev base_le : (k : String) (q : ℕ) → lookup k copied.table ≡ some q → h.next ≤ q
  base_le k q e = (made.fresh k q e).0

  same_name : (p : ℕ) → elem p (values g.nodes) ≡ true → name_of h p ≡ name_at p
  same_name p m = sym (ap (λ n. n.name) (made.old p (below_of_elem h.next p g.nodes w.below m)))

  name_copied :
      (p : ℕ) → elem p (values g.nodes) ≡ true → is_some (lookup (name_at p) copied.table) ≡ true
  name_copied p m = rw (← same_name p m) (is_some_of_has_key h g.nodes p w m)

  turned-IsReverse :
      (h' : Heap)
      → IsTurned name_at copied.table h.next base_le copied.heap h'
          (turned name_at (edges_of h) copied.table g.nodes)
      → IsReverse h g.nodes copied.graph h'
  turned-IsReverse h' t = record {
    untouched = λ p lt. t.old p lt ∙ made.old p lt;
    nodes = λ k. rw made.same (copies_names h g.nodes k w.keyed w.below);
    fresh = λ k q e. let f = made.fresh k q (rw made.same at e) in (f.0, t.names q ∙ f.2);
    edges = λ a b y q ea eb.
        let in_a = rw made.same at ea in
        let in_b = rw made.same at eb in
        ground (
          arith,
          t.edges y q,
          (made.fresh b q in_b).3,
          turned-points name_at copied.table (λ k r e. (made.fresh k r e).2) h g.nodes a b y q
              same_name (λ p e m n. same_name e (w.closed p e m n)) in_a in_b,
        );
    inside = λ b y q eb e.
        let in_b = rw made.same at eb in
        let (a, ea) =
          turned_copied name_at copied.table (λ k r e. (made.fresh k r e).2) (edges_of h) g.nodes y
            q (ground (arith, e, t.edges y q, (made.fresh b q in_b).3)) in
        (a, rw made.same ea);
  }

  -- A graph whose nodes stand under their own names in the heap and whose edges stay inside it is
  -- reversed without a fault. The result has a new node for
  -- each name, and an edge from `b` to `a` exactly where the graph has one from `a` to `b`; the
  -- nodes of before are as they were.
  pub reversed-IsReverse :
      (g' : Graph) × (h' : Heap) × (reversed h g ≡ some (g', h')) × IsReverse h g.nodes g' h'
  unfolding reversed
  reversed-IsReverse =
      let (h', done, t) =
        turn_all-IsTurned name_at copied.table h.next base_le (edges_of h) g.nodes copied.heap
          (λ a. refl) (λ a lt. ap (λ n. n.edges) (made.old a lt)) w.below name_copied
          (λ p e m n. name_copied e (w.closed p e m n)) in
      (copied.graph, h', rw (done, reversed), turned-IsReverse h' t)

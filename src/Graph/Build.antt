-- ===== src/Graph/Build.antt =====
-- Building a graph node by node, as `Reversed` of graph/graph.go and `DependencyGraph` of
-- resource/collection.go do: a new node for each name, entered in a table and in the graph.
use gru.Prelude.{
  ℕ, ◌≤◌, ◌<◌, String, ◌≡◌, refl, ◌∙◌, Bool, true, false, Option, none, some, [], ◌∷◌, arith, ◌==◌,
  ==_iff, Map, lookup, insert, lookup-insert, insert-IsMap, IsMap, has_key, Bool-cases, inl, inr,
  ap, Option-cases, eq_iff, str_eq, elem,
}
use gru.Graph.Sort.Lemmas.{IsKeyed}
use gru.Graph.Sort.Invariant.{IsDistinct}
use gru.Graph.Heap.{Heap, name_of, edges_of, Graph, new, new_node, add_node, values}

pub record Building : Type 0 where
  pub table : Map ℕ
  pub graph : Graph
  pub heap : Heap

-- node := NewNode(name); nodes[name] = node; g.AddNode(node)
abbrev pub build_step : String → Building → Building
build_step name c =
    let (q, h) = new_node name c.heap in
    record { table = insert name q c.table; graph = add_node h c.graph (q ∷ []); heap = h }

abbrev pub start : Heap → Building
start h = record { table = []; graph = new; heap = h }

-- All nodes of the graph are allocated.
abbrev pub IsBelow : ℕ → Map ℕ → Type 0
IsBelow n [] = Unit
IsBelow n ((k, p) ∷ ns) = (p < n) × IsBelow n ns

-- What holds between the rounds; the nodes below `base` are those of before.
pub record IsBuilding (h₀ : Heap) (c : Building) : Type 0 where
  pub same : c.graph.nodes ≡ c.table
  pub grows : h₀.next ≤ c.heap.next
  pub old : (p : ℕ) → p < h₀.next → c.heap.node p ≡ h₀.node p
  pub fresh :
      (k : String) (q : ℕ)
      → lookup k c.table ≡ some q
      → (h₀.next ≤ q) × (q < c.heap.next) × (name_of c.heap q ≡ k) × (edges_of c.heap q ≡ [])

module _ (h₀ : Heap) (k : String) (c : Building) (w : IsBuilding h₀ c) where
  pub build_step-fresh :
      (j : String) (q : ℕ)
      → lookup j (build_step k c).table ≡ some q
      → (h₀.next ≤ q)
        × (q < (build_step k c).heap.next)
        × (name_of (build_step k c).heap q ≡ j)
        × (edges_of (build_step k c).heap q ≡ [])
  unfolding new_node
  build_step-fresh j q e = ground (
    arith,
    w.grows,
    w.fresh j q,
    lookup-insert k j c.heap.next c.table,
    eq_iff k j,
    ==_iff c.heap.next q,
    e,
  )

  pub build_step-IsBuilding : IsBuilding h₀ (build_step k c)
  unfolding new_node add_node
  build_step-IsBuilding = record {
    same = ground (arith, w.same, ==_iff c.heap.next c.heap.next);
    grows = omega (arith, w.grows);
    old = λ p lt. ground (arith, w.grows, w.old p lt, ==_iff c.heap.next p);
    fresh = build_step-fresh;
  }

pub start-IsBuilding : (h : Heap) → IsBuilding h (start h)
unfolding lookup
start-IsBuilding h = record {
  same = refl;
  grows = omega arith;
  old = λ p lt. refl;
  fresh = λ k q e. cc;
}

-- The nodes of the graph that is being built.
pub record IsBuilt (c : Building) : Type 0 where
  pub keyed : IsKeyed c.heap c.graph.nodes
  pub below : IsBelow c.heap.next c.graph.nodes
  pub map : IsMap c.graph.nodes

insert-IsKeyed :
    (h : Heap) (k : String) (q : ℕ) (ns : Map ℕ)
    → name_of h q ≡ k
    → IsKeyed h ns
    → IsKeyed h (insert k q ns)
unfolding insert
insert-IsKeyed h k q [] e w = (e, tt)
insert-IsKeyed h k q ((j, p) ∷ ns) e w = elim (Bool-cases (str_eq j k)) [
  | inl same ↦ rw same (e, w.1)
  | inr other ↦ rw other (w.0, insert-IsKeyed h k q ns e w.1)
]

insert-IsBelow :
    (n : ℕ) (k : String) (q : ℕ) (ns : Map ℕ) → q < n → IsBelow n ns → IsBelow n (insert k q ns)
unfolding insert
insert-IsBelow n k q [] lt w = (lt, tt)
insert-IsBelow n k q ((j, p) ∷ ns) lt w = elim (Bool-cases (str_eq j k)) [
  | inl same ↦ rw same (lt, w.1)
  | inr other ↦ rw other (w.0, insert-IsBelow n k q ns lt w.1)
]

-- A new node changes nothing for the nodes that are there.
keep_old :
    (h h' : Heap) (ns : Map ℕ)
    → h.next ≤ h'.next
    → ((p : ℕ) → p < h.next → name_of h' p ≡ name_of h p)
    → IsKeyed h ns
    → IsBelow h.next ns
    → IsKeyed h' ns × IsBelow h'.next ns
keep_old h h' [] le same w b = (tt, tt)
keep_old h h' ((k, p) ∷ ns) le same w b =
    let rest = keep_old h h' ns le same w.1 b.1 in
    ((same p b.0 ∙ w.0, rest.0), (omega (arith, b.0), rest.1))

pub build_step-IsBuilt : (k : String) (c : Building) → IsBuilt c → IsBuilt (build_step k c)
unfolding new_node add_node
build_step-IsBuilt k c b =
    let (q, h) = new_node k c.heap in
    let self : (c.heap.next == c.heap.next) ≡ true =
      ground (arith, ==_iff c.heap.next c.heap.next) in
    let named : name_of h q ≡ k = ground (arith, self) in
    let kept =
      keep_old c.heap h c.graph.nodes (omega arith) (λ p lt. ground (arith, ==_iff c.heap.next p))
        b.keyed b.below in
    record {
      keyed = rw named (insert-IsKeyed h k q c.graph.nodes named kept.0);
      below = insert-IsBelow h.next (name_of h q) q c.graph.nodes (omega arith) kept.1;
      map = insert-IsMap (name_of h q) q c.graph.nodes b.map;
    }

pub has_key_of_elem :
    (h : Heap) (ns : Map ℕ) (p : ℕ)
    → IsKeyed h ns
    → elem p (values ns) ≡ true
    → has_key (name_of h p) ns ≡ true
has_key_of_elem h [] p keyed m = cc
has_key_of_elem h ((k, r) ∷ ns) p keyed m =
    ground (arith, keyed.0, has_key_of_elem h ns p keyed.1, ==_iff p r, eq_iff k (name_of h p))

pub lookup_of_elem :
    (h : Heap) (ns : Map ℕ) (a : ℕ)
    → IsKeyed h ns
    → IsMap ns
    → elem a (values ns) ≡ true
    → lookup (name_of h a) ns ≡ some a
unfolding lookup
lookup_of_elem h [] a w u m = absurd (ground (arith, m))
lookup_of_elem h ((k, p) ∷ ns) a w u m = ground (
  arith,
  w.0,
  u.0,
  ==_iff a p,
  eq_iff k (name_of h a),
  lookup_of_elem h ns a w.1 u.1,
  has_key_of_elem h ns a w.1,
  ap (name_of h) {x = a} {y = p},
  ap (λ j. has_key j ns) {x = k} {y = name_of h a},
)

-- Names tell the nodes of a graph apart.
pub IsDistinct-of-map : (h : Heap) (ns : Map ℕ) → IsKeyed h ns → IsMap ns → IsDistinct h ns
IsDistinct-of-map h ns w u a b ea eb e =
    ground
      (arith, lookup_of_elem h ns a w u ea, lookup_of_elem h ns b w u eb, ap (λ k. lookup k ns) e)

pub start-IsBuilt : (h : Heap) → IsBuilt (start h)
start-IsBuilt h = record { keyed = tt; below = tt; map = tt }

pub elem_of_lookup :
    (ns : Map ℕ) (k : String) (q : ℕ) → lookup k ns ≡ some q → elem q (values ns) ≡ true
unfolding lookup
elem_of_lookup [] k q e = absurd (ground (arith, e))
elem_of_lookup ((j, p) ∷ ns) k q e = ground (arith, elem_of_lookup ns k q, ==_iff q p)

-- The test of an entry of the table.
abbrev pub is_at : Option ℕ → ℕ → Bool
is_at none q = false
is_at (some x) q = x == q

module _ (name : ℕ → String) (nodes : Map ℕ)
    (named : (k : String) (q : ℕ) → lookup k nodes ≡ some q → name q ≡ k) where
  pub is_at-lookup :
      (b c : String) (q : ℕ) → lookup b nodes ≡ some q → is_at (lookup c nodes) q ≡ str_eq c b
  is_at-lookup b c q e = elim (Option-cases (lookup c nodes)) [
    | inl missing ↦ ground (arith, e, missing, eq_iff c b, ap (λ k. lookup k nodes) {x = c} {y = b})
    | inr (x, here) ↦ ground (
      arith,
      e,
      here,
      eq_iff c b,
      named b q e,
      named c x here,
      ==_iff x q,
      ap (λ k. lookup k nodes) {x = c} {y = b},
      ap name {x = x} {y = q},
    )
  ]

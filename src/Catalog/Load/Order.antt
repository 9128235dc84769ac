-- ===== src/Catalog/Load/Order.antt =====
-- A loaded catalog can be run: its order puts every resource behind what it needs, and the reversed
-- graph shows a dependent at everything that is needed.
use gru.Prelude.{
  ℕ, ◌<◌, String, ◌≡◌, ◌∙◌, sym, true, false, some, List, [], ◌∷◌, arith, Map, lookup, has_key,
  is_some, is_some-lookup, mem_str, eq_iff, inl, inr, elem, ==_iff, Option-cases, ap, length,
  Bool-cases,
}
use gru.Graph.Heap.{Heap, Graph, name_of, edges_of, values}
use gru.Graph.Build.{IsBelow, lookup_of_elem, elem_of_lookup}
use gru.Graph.Sort.Lemmas.{IsKeyed}
use gru.Graph.Sort.Invariant.{IsOrdered, elem_of_empty}
use gru.Graph.Reversed.Edges.{edge_named, points}
use gru.Graph.Reversed.Contract.{IsReverse, below_of_elem}
use gru.Resource.{Resource}
use gru.Resource.Collection.{Collection}
use gru.Resource.Collection.Connect.{AllPresent}
use gru.Resource.Collection.Contract.{needs, IsGraphOf}
use gru.Catalog.{Catalog}
use gru.Catalog.Run.{has_no_dependents}
use gru.Catalog.Run.Invariant.{needed, busy, IsReady}

pub IsKeyed-old :
    (h h' : Heap) (n : ℕ) (ns : Map ℕ)
    → ((p : ℕ) → p < n → h'.node p ≡ h.node p)
    → IsBelow n ns
    → IsKeyed h ns
    → IsKeyed h' ns
IsKeyed-old h h' n [] same b w = tt
IsKeyed-old h h' n ((k, p) ∷ ns) same b w =
    (ap (λ x. x.name) (same p b.0) ∙ w.0, IsKeyed-old h h' n ns same b.1 w.1)

name_of-lookup :
    (h : Heap) (ns : Map ℕ) (k : String) (q : ℕ)
    → IsKeyed h ns
    → lookup k ns ≡ some q
    → name_of h q ≡ k
unfolding lookup
name_of-lookup h [] k q w e = absurd (cc (e))
name_of-lookup h ((j, p) ∷ ns) k q w e =
    ground (arith, e, w.0, name_of-lookup h ns k q w.1, eq_iff j k, ap (name_of h) {x = p} {y = q})

edge_named_of_elem :
    (h : Heap) (es : List ℕ) (q : ℕ) → elem q es ≡ true → edge_named h (name_of h q) es ≡ true
edge_named_of_elem h [] q m = absurd (cc (m))
edge_named_of_elem h (e ∷ es) q m = ground (
  arith,
  m,
  edge_named_of_elem h es q,
  ==_iff q e,
  eq_iff (name_of h e) (name_of h q),
  ap (name_of h) {x = q} {y = e},
)

points_of_edge :
    (h : Heap) (ns : Map ℕ) (p q : ℕ)
    → elem p (values ns) ≡ true
    → elem q (edges_of h p) ≡ true
    → points h ns (name_of h p) (name_of h q) ≡ true
points_of_edge h [] p q m e = absurd (cc (m))
points_of_edge h ((k, r) ∷ ns) p q m e = ground (
  arith,
  m,
  points_of_edge h ns p q,
  e,
  edge_named_of_elem h (edges_of h r) q,
  ==_iff p r,
  eq_iff (name_of h r) (name_of h p),
  ap (name_of h) {x = p} {y = r},
  ap (λ x. elem q (edges_of h x)) {x = p} {y = r},
)

module _ {W : Type 0} where
  needs_of_lookup :
      (c : Collection W) (a b : String) (r : Resource W)
      → lookup a c ≡ some r
      → needed r b ≡ true
      → needs c a b ≡ true
  unfolding lookup
  needs_of_lookup [] a b r e n = absurd (cc (e))
  needs_of_lookup ((id, q) ∷ c) a b r e n =
      ground (arith, e, n, needs_of_lookup c a b r, ap (λ x. needed x b) {x = q} {y = r})

  present_of_lookup :
      (all c : Collection W) (a b : String) (r : Resource W)
      → AllPresent all c
      → lookup a c ≡ some r
      → needed r b ≡ true
      → is_some (lookup b all) ≡ true
  unfolding lookup
  present_of_lookup all [] a b r w e n = absurd (cc (e))
  present_of_lookup all ((id, q) ∷ c) a b r w e n = ground (
    arith,
    e,
    n,
    w.0 b,
    w.1 b,
    present_of_lookup all c a b r w.2,
    ap (λ x. needed x b) {x = q} {y = r},
  )

-- What the parts of `Load` have made.
pub record IsArranged {W : Type 0} (h : Heap) (c : Catalog W) (g : Graph) (h₁ h₂ : Heap)
    : Type 0 where
  pub own : (k : String) (r : Resource W) → lookup k c.collection ≡ some r → r.id ≡ k
  pub present : AllPresent c.collection c.collection
  pub graph : IsGraphOf c.collection g h₁
  pub reverse : IsReverse h₁ g.nodes c.reversed h₂
  pub members : (a : ℕ) → elem a c.sorted ≡ elem a (values g.nodes)
  pub ordered : IsOrdered h₂ [] c.sorted
  pub names : (a : ℕ) → name_of h a ≡ name_of h₂ a
  pub others : (a : ℕ) → elem a (values g.nodes) ≡ false → h.node a ≡ h₂.node a

module _ {W : Type 0} (h : Heap) (c : Catalog W) (g : Graph) (h₁ h₂ : Heap)
    (w : IsArranged h c g h₁ h₂) where
  open w use {own, present, graph, reverse, members, ordered, others}

  abbrev ns : Map ℕ
  ns = g.nodes

  unchanged : (p : ℕ) → elem p (values ns) ≡ true → h₂.node p ≡ h₁.node p
  unchanged p m = reverse.untouched p (below_of_elem h₁.next p ns graph.whole.below m)

  same_name : (p : ℕ) → elem p (values ns) ≡ true → name_of h p ≡ name_of h₁ p
  same_name p m = w.names p ∙ ap (λ n. n.name) (unchanged p m)

  -- The copies of the reversed graph are not sorted.
  copy_kept :
      (k : String) (q : ℕ) → lookup k c.reversed.nodes ≡ some q → edges_of h q ≡ edges_of h₂ q
  copy_kept k q e =
      ap (λ n. n.edges)
        (others q (elim (Bool-cases (elem q (values ns))) [
          | inr out ↦ out
          | inl inside ↦ absurd (
              omega (
                arith,
                below_of_elem h₁.next q ns graph.whole.below inside,
                (reverse.fresh k q e).0,
              ))
        ]))

  copied : (k : String) → has_key k ns ≡ true → is_some (has_no_dependents h c k) ≡ true
  copied k m = ground (arith, reverse.nodes k, m)

  -- Something that is needed has a reverse dependency.
  busy_of_needed :
      (a b : String)
      → has_key a ns ≡ true
      → has_key b ns ≡ true
      → points h₁ ns a b ≡ true
      → busy h c b ≡ true
  busy_of_needed a b ma mb e = elim (Option-cases (lookup a c.reversed.nodes)) [
    | inl gone ↦ absurd (ground (arith, gone, reverse.nodes a, ma))
    | inr (y, at_a) ↦ elim (Option-cases (lookup b c.reversed.nodes)) [
      | inl gone ↦ absurd (ground (arith, gone, reverse.nodes b, mb))
      | inr (q, at_b) ↦ ground (
        arith,
        at_b,
        reverse.edges a b y q at_a at_b,
        e,
        elem_of_empty (edges_of h₂ q) y,
        copy_kept b q at_b,
        ap length (copy_kept b q at_b),
      )
    ]
  ]

  -- What a resource needs is a node, and its own node has an edge to it.
  needed_edge :
      (p : ℕ) (r : Resource W) (d : String)
      → elem p (values ns) ≡ true
      → lookup (name_of h₁ p) c.collection ≡ some r
      → needed r d ≡ true
      → (q : ℕ) × (elem q (values ns) ≡ true) × (name_of h₁ q ≡ d) × (elem q (edges_of h₁ p) ≡ true)
  needed_edge p r d m at n =
      let a = name_of h₁ p in
      elim (Option-cases (lookup d ns)) [
        | inl gone ↦ absurd (
            ground (
              arith,
              gone,
              is_some-lookup d ns,
              graph.names d,
              is_some-lookup d c.collection,
              present_of_lookup c.collection c.collection a d r present at n,
            ))
        | inr (q, here) ↦ (
          q,
          elem_of_lookup ns d q here,
          name_of-lookup h₁ ns d q graph.whole.keyed here,
          graph.edges a d p q (lookup_of_elem h₁ ns p graph.whole.keyed graph.map m) here
              ∙ needs_of_lookup c.collection a d r at n,
        )
      ]

  abbrev Seen : List ℕ → List String → Type 0
  Seen ps ks = (q : ℕ) → elem q ps ≡ true → mem_str (name_of h q) ks ≡ true

  has_key_of_node : (p : ℕ) → elem p (values ns) ≡ true → has_key (name_of h₁ p) ns ≡ true
  has_key_of_node p m = ground (
    arith,
    lookup_of_elem h₁ ns p graph.whole.keyed graph.map m,
    is_some-lookup (name_of h₁ p) ns,
  )

  before :
      (p : ℕ) (r : Resource W) (d : String) (ps : List ℕ) (ks : List String)
      → elem p (values ns) ≡ true
      → lookup (name_of h₁ p) c.collection ≡ some r
      → ((q : ℕ) → elem q (edges_of h₂ p) ≡ true → elem q ps ≡ true)
      → Seen ps ks
      → needed r d ≡ true
      → (mem_str d ks ≡ true) × (busy h c d ≡ true)
  before p r d ps ks m at earlier seen n =
      let (q, inside, called, edge) = needed_edge p r d m at n in
      let edge₂ = ap (λ x. elem q x.edges) (unchanged p m) ∙ edge in
      let named = same_name q inside ∙ called in
      (
        rw (← named) (seen q (earlier q edge₂)),
        busy_of_needed (name_of h₁ p) d (has_key_of_node p m)
            (rw (← called) (has_key_of_node q inside))
            (rw (← called) (points_of_edge h₁ ns p q m edge)),
      )

  ready_from :
      (todo ps : List ℕ) (ks : List String)
      → ((p : ℕ) → elem p todo ≡ true → elem p (values ns) ≡ true)
      → IsOrdered h₂ ps todo
      → Seen ps ks
      → IsReady h c ks todo
  ready_from [] ps ks inside ord seen = tt
  ready_from (p ∷ todo) ps ks inside ord seen =
      let m = inside p (ground (arith, ==_iff p p)) in
      let same = same_name p m in
      elim (Option-cases (lookup (name_of h₁ p) c.collection)) [
        | inl gone ↦ absurd (
            ground (
              arith,
              gone,
              is_some-lookup (name_of h₁ p) c.collection,
              graph.names (name_of h₁ p),
              has_key_of_node p m,
            ))
        | inr (r, at) ↦
            let mine = own (name_of h₁ p) r at in
            (
              (
                r,
                rw same at,
                mine ∙ sym same,
                rw mine (copied (name_of h₁ p) (has_key_of_node p m)),
                λ d n. (before p r d ps ks m at ord.0 seen n).0,
                λ d n. (before p r d ps ks m at ord.0 seen n).1,
              ),
              ready_from todo (p ∷ ps) (name_of h p ∷ ks) (λ q e. inside q (ground (arith, e)))
                  ord.1
                  (λ q e. ground (
                    arith,
                    e,
                    seen q,
                    ==_iff q p,
                    eq_iff (name_of h p) (name_of h q),
                    ap (name_of h) {x = q} {y = p},
                  )),
            )
      ]

  pub IsArranged-IsReady : IsReady h c [] c.sorted
  IsArranged-IsReady =
      ready_from c.sorted [] [] (λ p e. ground (arith, e, members p)) ordered (λ q e. cc)

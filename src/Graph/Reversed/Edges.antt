-- ===== src/Graph/Reversed/Edges.antt =====
-- The second loop of `Reversed`, and the graph that it leaves.
use gru.Prelude.{
  ℕ, ◌≤◌, ◌<◌, String, ◌≡◌, refl, ◌∙◌, Bool, true, false, ◌||◌, ◌&&◌, some, List, [], ◌∷◌, arith,
  ◌==◌, ==_iff, Map, lookup, is_some, str_eq, elem, elem-append, inl, inr, Option-cases, ap,
}
use gru.Graph.Heap.{Heap, name_of, edges_of, add_edge, values}
use gru.Graph.Build.{is_at, IsBelow}
use gru.Graph.Reversed.{turn_edges, turn_all}

-- Some node of the list has a name whose copy is `q`.
abbrev pub leads : (ℕ → String) → Map ℕ → List ℕ → ℕ → Bool
leads name copies [] q = false
leads name copies (e ∷ es) q = is_at (lookup (name e) copies) q || leads name copies es q

-- Some node of the graph whose copy is `y` has an edge to a name whose copy is `q`.
abbrev pub turned : (ℕ → String) → (ℕ → List ℕ) → Map ℕ → Map ℕ → ℕ → ℕ → Bool
turned name edges copies [] y q = false
turned name edges copies ((k, p) ∷ ns) y q =
    is_at (lookup (name p) copies) y && leads name copies (edges p) q
    || turned name edges copies ns y q

module _ (name : ℕ → String) (copies : Map ℕ) (base : ℕ)
    (high : (k : String) (q : ℕ) → lookup k copies ≡ some q → base ≤ q) where
  pub record IsTurned (h h' : Heap) (gained : ℕ → ℕ → Bool) : Type 0 where
    pub names : (a : ℕ) → name_of h' a ≡ name a
    pub old : (a : ℕ) → a < base → h'.node a ≡ h.node a
    pub edges : (y q : ℕ) → elem y (edges_of h' q) ≡ (elem y (edges_of h q) || gained y q)

  add_edge-IsTurned :
      (h : Heap) (q x : ℕ)
      → ((a : ℕ) → name_of h a ≡ name a)
      → base ≤ q
      → IsTurned h (add_edge q (x ∷ []) h) (λ y r. (y == x) && (q == r))
  unfolding add_edge
  add_edge-IsTurned h q x same le = record {
    names = λ a. ground (arith, same a, same q, ==_iff q a);
    old = λ a lt. ground (arith, ==_iff q a);
    edges = λ y r. ground (arith, ==_iff q r, elem-append y (edges_of h q) (x ∷ []));
  }

  turn_edges-IsTurned :
      (p x : ℕ) (es : List ℕ) (h : Heap)
      → ((a : ℕ) → name_of h a ≡ name a)
      → lookup (name p) copies ≡ some x
      → ((e : ℕ) → elem e es ≡ true → is_some (lookup (name e) copies) ≡ true)
      → (h' : Heap) × (turn_edges copies p es h ≡ some h')
        × IsTurned h h' (λ y q. (y == x) && leads name copies es q)
  unfolding turn_edges
  turn_edges-IsTurned p x [] h same copied found =
      (h, refl, record { names = same; old = λ a lt. refl; edges = λ y q. ground arith })
  turn_edges-IsTurned p x (e ∷ es) h same copied found =
      elim (Option-cases (lookup (name e) copies)) [
        | inl missing ↦ absurd (ground (arith, found e, ==_iff e e, missing))
        | inr (q, here) ↦
            let h₁ = add_edge q (x ∷ []) h in
            let one = add_edge-IsTurned h q x same (high (name e) q here) in
            let (h', done, more) =
              turn_edges-IsTurned p x es h₁ one.names copied (λ d m. found d (ground (arith, m))) in
            (
              h',
              rw (same e, here, turn_edges, same p, copied) done,
              record {
                names = more.names;
                old = λ a lt. more.old a lt ∙ one.old a lt;
                edges = λ y r. ground (arith, here, more.edges y r, one.edges y r);
              },
            )
      ]

  module _ (edges : ℕ → List ℕ) where
    pub turn_all-IsTurned :
        (ns : Map ℕ) (h : Heap)
        → ((a : ℕ) → name_of h a ≡ name a)
        → ((a : ℕ) → a < base → edges_of h a ≡ edges a)
        → IsBelow base ns
        → ((p : ℕ) → elem p (values ns) ≡ true → is_some (lookup (name p) copies) ≡ true)
        → ((p e : ℕ)
            → elem p (values ns) ≡ true
            → elem e (edges p) ≡ true
            → is_some (lookup (name e) copies) ≡ true)
        → (h' : Heap) × (turn_all copies ns h ≡ some h')
          × IsTurned h h' (turned name edges copies ns)
    unfolding turn_all
    turn_all-IsTurned [] h same kept below copied found =
        (h, refl, record { names = same; old = λ a lt. refl; edges = λ y q. ground arith })
    turn_all-IsTurned ((k, p) ∷ ns) h same kept below copied found =
        let self : (p == p) ≡ true = ground (arith, ==_iff p p) in
        elim (Option-cases (lookup (name p) copies)) [
          | inl missing ↦ absurd (ground (arith, copied p, self, missing))
          | inr (x, here) ↦
              let (h₁, first, one) =
                turn_edges-IsTurned p x (edges p) h same here
                  (λ e m. found p e (ground (arith, self)) m) in
              let (h', done, more) =
                turn_all-IsTurned ns h₁ one.names
                  (λ a lt. ap (λ n. n.edges) (one.old a lt) ∙ kept a lt) below.1
                  (λ a m. copied a (ground (arith, m)))
                  (λ a e m n. found a e (ground (arith, m)) n) in
              (
                h',
                rw (kept p below.0, first, turn_all) done,
                record {
                  names = more.names;
                  old = λ a lt. more.old a lt ∙ one.old a lt;
                  edges = λ y q.
                      ground (arith, here, more.edges y q, one.edges y q, ==_iff x y, ==_iff y x);
                },
              )
        ]

-- Some node of the list is called `b`.
abbrev pub edge_named : Heap → String → List ℕ → Bool
edge_named h b [] = false
edge_named h b (e ∷ es) = str_eq (name_of h e) b || edge_named h b es

-- The graph has an edge from a node called `a` to one called `b`.
abbrev pub points : Heap → Map ℕ → String → String → Bool
points h [] a b = false
points h ((k, p) ∷ ns) a b =
    str_eq (name_of h p) a && edge_named h b (edges_of h p) || points h ns a b

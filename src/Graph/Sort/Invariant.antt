-- ===== src/Graph/Sort/Invariant.antt =====
-- The invariant of the loop of `Sort`, and what the loop returns from a state that has it.
use gru.Prelude.{
  ℕ, ◌≡◌, refl, sym, ◌∙◌, true, false, not, ◌&&◌, ◌||◌, List, [], ◌∷◌, ◌++◌, arith, ap, ◌==◌,
  ==_iff, Map, length, elem, eq_iff, Unique, Unique-append, elem-append, remove,
}
use gru.Graph.Heap.{Heap, name_of, edges_of, values}
use gru.Graph.Sets.{MapSet}
use gru.Graph.Sort.{remove_ready, find_ready, strip_edges}
use gru.Graph.Sort.Lemmas.{
  IsKeyed, no_edges, elem-find_ready, name_of-strip_edges, elem-strip_edges, elem-remove,
  remove-IsKeyed, remove_ready-IsKeyed,
}

-- No two nodes of the graph have one name.
abbrev pub IsDistinct : Heap → Map ℕ → Type 0
IsDistinct h ns =
    (a b : ℕ)
    → elem a (values ns) ≡ true
    → elem b (values ns) ≡ true
    → name_of h a ≡ name_of h b
    → a ≡ b

-- Each node of the list has edges to `seen` and to nodes before it only.
abbrev pub IsOrdered : Heap → List ℕ → List ℕ → Type 0
IsOrdered h seen [] = Unit
IsOrdered h seen (p ∷ ps) =
    ((q : ℕ) → elem q (edges_of h p) ≡ true → elem q seen ≡ true) × IsOrdered h (p ∷ seen) ps

IsOrdered-append :
    (h : Heap) (seen xs ys : List ℕ)
    → IsOrdered h seen xs
    → ((p q : ℕ)
        → elem p ys ≡ true
        → elem q (edges_of h p) ≡ true
        → (elem q seen || elem q xs) ≡ true)
    → IsOrdered h seen (xs ++ ys)
IsOrdered-append h seen [] [] w rest = tt
IsOrdered-append h seen [] (y ∷ ys) w rest = (
  λ q e. ground (arith, rest y q, ==_iff y y),
  IsOrdered-append h (y ∷ seen) [] ys tt (λ p q ep eq. ground (arith, rest p q)),
)
IsOrdered-append h seen (x ∷ xs) ys w rest =
    (w.0, IsOrdered-append h (x ∷ seen) xs ys w.1 (λ p q ep eq. ground (arith, rest p q)))

-- The graph at the start is `h₀`, `ns₀`; the nodes `acc` were sorted so far and `ns` remain.
pub record Inv (h₀ : Heap) (ns₀ : Map ℕ) (h : Heap) (ns : Map ℕ) (acc : List ℕ) : Type 0 where
  pub names : (a : ℕ) → name_of h a ≡ name_of h₀ a
  pub keyed : IsKeyed h ns
  pub split : (a : ℕ) → elem a (values ns₀) ≡ (elem a acc || elem a (values ns))
  pub apart : (a : ℕ) → elem a acc ≡ true → elem a (values ns) ≡ false
  pub once : Unique acc
  pub edges :
      (p q : ℕ)
      → elem p (values ns) ≡ true
      → elem q (edges_of h p) ≡ (elem q (edges_of h₀ p) && not (elem q acc))
  pub ordered : IsOrdered h₀ [] acc

pub IsKeyed-cong :
    (h h' : Heap) (ns : Map ℕ)
    → ((a : ℕ) → name_of h' a ≡ name_of h a)
    → IsKeyed h ns
    → IsKeyed h' ns
IsKeyed-cong h h' [] same w = tt
IsKeyed-cong h h' ((k, p) ∷ ns) same w = (same p ∙ w.0, IsKeyed-cong h h' ns same w.1)

pub elem_of_empty : (xs : List ℕ) (q : ℕ) → (length xs == 0) ≡ true → elem q xs ≡ false
elem_of_empty [] q e = refl
elem_of_empty (x ∷ xs) q e = ground (arith, e)

-- Where names tell the nodes apart, deleting by name deletes just those nodes.
elem-remove_ready :
    (h : Heap) (us : Map ℕ) (ps : List ℕ) (ns : Map ℕ) (a : ℕ)
    → IsDistinct h us
    → IsKeyed h ns
    → (elem a (values ns) ≡ true → elem a (values us) ≡ true)
    → ((p : ℕ) → elem p ps ≡ true → elem p (values us) ≡ true)
    → elem a (values (remove_ready h ps ns)) ≡ (elem a (values ns) && not (elem a ps))
unfolding remove_ready
elem-remove_ready h us [] ns a d w sub all = ground arith
elem-remove_ready h us (p ∷ ps) ns a d w sub all = ground (
  arith,
  elem-remove_ready h us ps (remove (name_of h p) ns) a d (remove-IsKeyed h ns (name_of h p) w),
  elem-remove h ns (name_of h p) a w,
  eq_iff (name_of h a) (name_of h p),
  d a p,
  all p,
  λ (e : elem a ps ≡ true). all a (ground (arith, e)),
  ==_iff a p,
  ==_iff p p,
  ap (name_of h) {x = a} {y = p},
)

module _ (m : MapSet) (h₀ : Heap) (ns₀ : Map ℕ) (d : IsDistinct h₀ ns₀) (h : Heap) (ns : Map ℕ)
    (acc : List ℕ) (inv : Inv h₀ ns₀ h ns acc) where
  open m use {new_set, iter, iter-Unique, elem-new_set}
  open inv use {names, keyed, split, apart, once, edges, ordered}

  abbrev ready : m.Set
  ready = find_ready m h ns new_set

  abbrev rest : Map ℕ
  rest = remove_ready h (iter ready) ns

  abbrev stripped : Heap
  stripped = strip_edges m ready rest h

  pub elem-ready : (a : ℕ) → elem a (iter ready) ≡ (elem a (values ns) && no_edges h a)
  elem-ready a = ground (arith, elem-find_ready m h ns new_set a, elem-new_set a)

  distinct : IsDistinct h ns
  distinct a b ea eb e =
      d a b (ground (arith, split a)) (ground (arith, split b)) (sym (names a) ∙ e ∙ names b)

  pub elem-rest : (a : ℕ) → elem a (values rest) ≡ (elem a (values ns) && not (elem a (iter ready)))
  elem-rest a =
      elem-remove_ready h ns (iter ready) ns a distinct keyed (λ e. e)
        (λ p e. ground (arith, elem-ready p))

  ready_edges :
      (p q : ℕ) → elem p (iter ready) ≡ true → elem q (edges_of h₀ p) ≡ true → elem q acc ≡ true
  ready_edges p q ep eq = ground (arith, elem-ready p, edges p q, elem_of_empty (edges_of h p) q)

  pub round-Inv : Inv h₀ ns₀ stripped rest (acc ++ iter ready)
  round-Inv = record {
    names = λ a. name_of-strip_edges m ready rest h a ∙ names a;
    keyed =
        IsKeyed-cong h stripped rest (name_of-strip_edges m ready rest h)
          (remove_ready-IsKeyed h (iter ready) ns keyed);
    split = λ a. ground (arith, split a, elem-append a acc (iter ready), elem-rest a, elem-ready a);
    apart = λ a e. ground (arith, apart a, elem-append a acc (iter ready), elem-rest a);
    once =
        Unique-append acc (iter ready) once (iter-Unique ready)
          (λ a e. ground (arith, apart a, elem-ready a));
    edges = λ p q e. ground (
      arith,
      edges p q,
      elem-rest p,
      elem-strip_edges m ready rest h p q,
      elem-append q acc (iter ready),
    );
    ordered =
        IsOrdered-append h₀ [] acc (iter ready) ordered
          (λ p q ep eq. ground (arith, ready_edges p q));
  }

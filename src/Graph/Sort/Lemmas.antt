-- ===== src/Graph/Sort/Lemmas.antt =====
-- What one round of the sort does to the sets, the graph and the edges.
use gru.Prelude.{
  ℕ, ◌≤◌, ◌<◌, String, ◌≡◌, refl, Bool, true, false, not, ◌&&◌, ◌||◌, List, [], ◌∷◌, arith, ◌==◌,
  ==_iff, Map, remove, length, elem, str_eq, eq_iff, inl, inr, Bool-cases,
}
use gru.Graph.Heap.{Heap, name_of, edges_of, set_edges, values}
use gru.Graph.Sets.{MapSet}
use gru.Graph.Sort.{remove_ready, find_ready, add_all, strip_edges}

-- Every node stands in the graph under its own name.
abbrev pub IsKeyed : Heap → Map ℕ → Type 0
IsKeyed h [] = Unit
IsKeyed h ((k, p) ∷ ns) = (name_of h p ≡ k) × IsKeyed h ns

abbrev pub no_edges : Heap → ℕ → Bool
no_edges h p = length (edges_of h p) == 0

module _ (m : MapSet) where
  open m use {Set, new_set, add, difference, iter, elem-new_set, elem-add, elem-difference}

  pub elem-find_ready :
      (h : Heap) (ns : Map ℕ) (s : Set) (a : ℕ)
      → elem a (iter (find_ready m h ns s))
        ≡ (elem a (iter s) || (elem a (values ns) && no_edges h a))
  unfolding find_ready
  elem-find_ready h [] s a = ground arith
  elem-find_ready h ((k, p) ∷ ns) s a = elim (Bool-cases (no_edges h p)) [
    | inl bare ↦
        rw bare (ground (arith, elem-find_ready h ns (add s p) a, elem-add s p a, ==_iff a p, bare))
    | inr more ↦ rw more (ground (arith, elem-find_ready h ns s a, ==_iff a p, more))
  ]

  pub elem-add_all :
      (es : List ℕ) (s : Set) (a : ℕ)
      → elem a (iter (add_all m es s)) ≡ (elem a es || elem a (iter s))
  unfolding add_all
  elem-add_all [] s a = refl
  elem-add_all (e ∷ es) s a = ground (arith, elem-add_all es (add s e) a, elem-add s e a)

  -- Stripping changes no name.
  pub name_of-strip_edges :
      (ready : Set) (ns : Map ℕ) (h : Heap) (a : ℕ)
      → name_of (strip_edges m ready ns h) a ≡ name_of h a
  unfolding strip_edges
  name_of-strip_edges ready [] h a = refl
  name_of-strip_edges ready ((k, p) ∷ ns) h a =
      let kept = difference (add_all m (edges_of h p) new_set) ready in
      ground (arith, name_of-strip_edges ready ns (set_edges p (iter kept) h) a, ==_iff p a)

  -- The edges of the nodes in the graph lose the ready nodes; other nodes are left alone.
  pub elem-strip_edges :
      (ready : Set) (ns : Map ℕ) (h : Heap) (a q : ℕ)
      → elem q (edges_of (strip_edges m ready ns h) a)
        ≡ (elem q (edges_of h a) && not (elem a (values ns) && elem q (iter ready)))
  unfolding strip_edges
  elem-strip_edges ready [] h a q = ground arith
  elem-strip_edges ready ((k, p) ∷ ns) h a q =
      let all = add_all m (edges_of h p) new_set in
      let kept = difference all ready in
      ground (
        arith,
        elem-strip_edges ready ns (set_edges p (iter kept) h) a q,
        elem-difference all ready q,
        elem-add_all (edges_of h p) new_set q,
        elem-new_set q,
        ==_iff p a,
        ==_iff a p,
      )

-- A node that is not in the graph keeps its edges.
pub node-strip_edges :
    (m : MapSet) (ready : m.Set) (ns : Map ℕ) (h : Heap) (a : ℕ)
    → elem a (values ns) ≡ false
    → (strip_edges m ready ns h).node a ≡ h.node a
unfolding strip_edges
node-strip_edges m ready [] h a e = refl
node-strip_edges m ready ((k, p) ∷ ns) h a e =
    let kept = m.difference (add_all m (edges_of h p) m.new_set) ready in
    ground
      (arith, node-strip_edges m ready ns (set_edges p (m.iter kept) h) a, ==_iff p a, ==_iff a p)

pub length-remove : (ns : Map ℕ) (k : String) → length (remove k ns) ≤ length ns
unfolding remove
length-remove [] k = omega arith
length-remove ((j, p) ∷ ns) k = ground (arith, length-remove ns k)

module _ (h : Heap) where
  pub elem-remove :
      (ns : Map ℕ) (k : String) (a : ℕ)
      → IsKeyed h ns
      → elem a (values (remove k ns)) ≡ (elem a (values ns) && not (str_eq (name_of h a) k))
  unfolding remove
  elem-remove [] k a w = refl
  elem-remove ((j, p) ∷ ns) k a w =
      ground (arith, elem-remove ns k a w.1, ==_iff a p, eq_iff j k, eq_iff (name_of h a) k)

  pub remove-IsKeyed : (ns : Map ℕ) (k : String) → IsKeyed h ns → IsKeyed h (remove k ns)
  unfolding remove
  remove-IsKeyed [] k w = tt
  remove-IsKeyed ((j, p) ∷ ns) k w = elim (Bool-cases (str_eq j k)) [
    | inl same ↦ rw same (remove-IsKeyed ns k w.1)
    | inr other ↦ rw other (w.0, remove-IsKeyed ns k w.1)
  ]

  pub length-remove_self :
      (ns : Map ℕ) (a : ℕ)
      → IsKeyed h ns
      → elem a (values ns) ≡ true
      → length (remove (name_of h a) ns) < length ns
  unfolding remove
  length-remove_self [] a w e = cc
  length-remove_self ((j, p) ∷ ns) a w e = ground (
    arith,
    length-remove_self ns a w.1,
    length-remove ns (name_of h a),
    ==_iff a p,
    eq_iff j (name_of h a),
  )

  pub remove_ready-IsKeyed :
      (ps : List ℕ) (ns : Map ℕ) → IsKeyed h ns → IsKeyed h (remove_ready h ps ns)
  unfolding remove_ready
  remove_ready-IsKeyed [] ns w = w
  remove_ready-IsKeyed (p ∷ ps) ns w =
      remove_ready-IsKeyed ps (remove (name_of h p) ns) (remove-IsKeyed ns (name_of h p) w)

  pub length-remove_ready : (ps : List ℕ) (ns : Map ℕ) → length (remove_ready h ps ns) ≤ length ns
  unfolding remove_ready
  length-remove_ready [] ns = omega arith
  length-remove_ready (p ∷ ps) ns =
      omega
        (arith, length-remove_ready ps (remove (name_of h p) ns), length-remove ns (name_of h p))

-- ===== src/Graph/Sets.antt =====
-- What the sort uses of github.com/deckarep/golang-set, for sets of nodes: the operations, and
-- their documented behaviour. The order in which `iter` hands out the members is left open.
use gru.Prelude.{
  ℕ, ◌≡◌, refl, false, not, ◌&&◌, ◌||◌, List, [], ◌∷◌, arith, ◌==◌, ==_iff, if◌then◌else◌, length,
  elem, Unique, select, elem-select, Bool-cases, inl, inr,
}

pub record MapSet : Type 1 where
  pub Set : Type 0
  pub new_set : Set
  pub add : Set → ℕ → Set
  pub difference : Set → Set → Set
  pub cardinality : Set → ℕ
  pub iter : Set → List ℕ
  pub elem-new_set : (a : ℕ) → elem a (iter new_set) ≡ false
  pub elem-add : (s : Set) (x a : ℕ) → elem a (iter (add s x)) ≡ ((a == x) || elem a (iter s))
  pub elem-difference :
      (s t : Set) (a : ℕ)
      → elem a (iter (difference s t)) ≡ (elem a (iter s) && not (elem a (iter t)))
  pub iter-Unique : (s : Set) → Unique (iter s)
  pub cardinality_lem : (s : Set) → cardinality s ≡ length (iter s)

-- Lists whose repeated members are dropped when they are handed out.
abbrev pub dedup : List ℕ → List ℕ
dedup [] = []
dedup (x ∷ xs) = let rest = dedup xs in if elem x rest then rest else x ∷ rest

elem-dedup : (a : ℕ) (xs : List ℕ) → elem a (dedup xs) ≡ elem a xs
elem-dedup a [] = refl
elem-dedup a (x ∷ xs) = ground (arith, elem-dedup a xs, elem-dedup x xs, ==_iff a x)

pub dedup-Unique : (xs : List ℕ) → Unique (dedup xs)
dedup-Unique [] = tt
dedup-Unique (x ∷ xs) = elim (Bool-cases (elem x (dedup xs))) [
  | inl old ↦ rw old (dedup-Unique xs)
  | inr fresh ↦ rw fresh (fresh, dedup-Unique xs)
]

pub list_set_difference :
    (s t : List ℕ) (a : ℕ)
    → elem a (dedup (select (λ x. not (elem x t)) s)) ≡ (elem a (dedup s) && not (elem a (dedup t)))
list_set_difference s t a =
    rw (elem-dedup a (select _ s), elem-select, elem-dedup a s, elem-dedup a t)

pub list_set_add : (s : List ℕ) (x a : ℕ) → elem a (dedup (x ∷ s)) ≡ ((a == x) || elem a (dedup s))
list_set_add s x a = rw (elem-dedup a (x ∷ s), elem-dedup a s)

abbrev pub list_set : MapSet
list_set = record {
  Set = List ℕ;
  new_set = [];
  add = λ s x. x ∷ s;
  difference = λ s t. select (λ x. not (elem x t)) s;
  cardinality = λ s. length (dedup s);
  iter = dedup;
  elem-new_set = λ a. refl;
  elem-add = list_set_add;
  elem-difference = list_set_difference;
  iter-Unique = dedup-Unique;
  cardinality_lem = λ s. refl;
}

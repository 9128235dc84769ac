-- ===== src/Resource/Collection/Ids.antt =====
-- What `CreateCollection` promises: each resource under its own id, or an id that two of them have.
use gru.Prelude.{
  String, ◌≡◌, refl, Bool, true, false, ◌||◌, ◌&&◌, Option, none, some, List, [], ◌∷◌, arith,
  lookup, insert, lookup-insert, has_key-insert, insert-IsMap, IsMap, has_key, is_some-lookup,
  mem_str, eq_iff, str_eq, inl, inr, Option-cases, ap,
}
use gru.Errors.{Error, duplicate}
use gru.Resource.{Resource}
use gru.Resource.Collection.{Collection, ids, add_resources, create_collection}

-- The name stands in the list twice.
abbrev pub twice : String → List String → Bool
twice k [] = false
twice k (x ∷ xs) = str_eq x k && mem_str k xs || twice k xs

module _ {W : Type 0} where
  -- The first resource with the id.
  abbrev pub find_id : String → List (Resource W) → Option (Resource W)
  find_id k [] = none
  find_id k (r ∷ rs) =
      let rest = find_id k rs in elim (str_eq r.id k) [ true ↦ some r | false ↦ rest ]

  abbrev pub or_else : Option (Resource W) → Option (Resource W) → Option (Resource W)
  or_else (some r) o = some r
  or_else none o = o

  -- The outcome of adding `rs` to `c`.
  abbrev pub Added : List (Resource W) → Collection W → Collection W × Option Error → Type 0
  Added rs c (c', none) =
      IsMap c'
      × ((k : String) → lookup k c' ≡ or_else (lookup k c) (find_id k rs))
      × ((k : String) → (mem_str k (ids rs) && has_key k c || twice k (ids rs)) ≡ false)
  Added rs c (c', some e) =
      (k : String) × (e ≡ duplicate k)
      × ((mem_str k (ids rs) && has_key k c || twice k (ids rs)) ≡ true)

  Added-cons :
      (r : Resource W) (rs : List (Resource W)) (c : Collection W) (o : Collection W × Option Error)
      → lookup r.id c ≡ none
      → Added rs (insert r.id r c) o
      → Added (r ∷ rs) c o
  Added-cons r rs c (c', none) new w = (
    w.0,
    λ k. ground (
      arith,
      w.1 k,
      lookup-insert r.id k r c,
      new,
      eq_iff r.id k,
      ap (λ j. lookup j c) {x = r.id} {y = k},
    ),
    λ k. ground (
      arith,
      w.2 k,
      has_key-insert r.id k r c,
      new,
      is_some-lookup r.id c,
      eq_iff r.id k,
      ap (λ j. has_key j c) {x = r.id} {y = k},
    ),
  )
  Added-cons r rs c (c', some e) new w =
      (w.0, w.1, ground (arith, w.2, has_key-insert r.id w.0 r c, eq_iff r.id w.0))

  add_resources-Added :
      (rs : List (Resource W)) (c : Collection W) → IsMap c → Added rs c (add_resources rs c)
  unfolding add_resources
  add_resources-Added [] c u = (u, λ k. ground (arith), λ k. refl)
  add_resources-Added (r ∷ rs) c u = elim (Option-cases (lookup r.id c)) [
    | inl new ↦
        rw (new, add_resources)
          (Added-cons r rs c (add_resources rs (insert r.id r c)) new
            (add_resources-Added rs (insert r.id r c) (insert-IsMap r.id r c u)))
    | inr (q, old) ↦
        rw (old, add_resources)
          (r.id, refl, ground (arith, old, is_some-lookup r.id c, eq_iff r.id r.id))
  ]

  -- A collection has each resource under its id, and no two resources have one id. Otherwise the
  -- error names an id that two resources have.
  pub create_collection-Added : (rs : List (Resource W)) → Added rs [] (create_collection rs)
  unfolding create_collection
  create_collection-Added rs = add_resources-Added rs [] tt

  pub id_of_find :
      (k : String) (rs : List (Resource W)) (r : Resource W) → find_id k rs ≡ some r → r.id ≡ k
  id_of_find k [] r e = absurd (cc (e))
  id_of_find k (q ∷ rs) r e = ground (arith, id_of_find k rs r, eq_iff q.id k, e)

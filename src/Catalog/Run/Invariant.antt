-- ===== src/Catalog/Run/Invariant.antt =====
-- The invariant of `Run`: what is processed, what is queued, and what is still to come.
use gru.Prelude.{
  ℕ, String, ◌≡◌, Bool, true, false, not, ◌||◌, none, some, List, [], ◌∷◌, ◌++◌, arith, lookup,
  is_some, mem_str, str_eq, ◌⊎◌,
}
use gru.Graph.Heap.{Heap, name_of}
use gru.Resource.{Resource}
use gru.Resource.Collection.{keys, ids}
use gru.Catalog.{Catalog, Status}
use gru.Catalog.Execute.{Shared}
use gru.Catalog.Execute.Safety.{process-safe, Returns}
use gru.Catalog.Run.{
  Running, isolated, no_dependents, synchronous, has_no_dependents, lane, process_in,
}

-- The resource requires `d` or subscribes to it.
abbrev pub needed : {W : Type 0} → Resource W → String → Bool
needed r d = mem_str d r.dependencies || mem_str d (keys r.subscribed_to)

abbrev pub names : Heap → List ℕ → List String
names h [] = []
names h (p ∷ ps) = name_of h p ∷ names h ps

module _ {W : Type 0} (h : Heap) (c : Catalog W) where
  -- The id has reverse dependencies.
  abbrev pub busy : String → Bool
  busy d = elim (has_no_dependents h c d) [ none ↦ false | some idle ↦ not idle ]

  -- Each node stands for a resource, which needs only nodes before it.
  abbrev pub IsReady : List String → List ℕ → Type 0
  IsReady seen [] = Unit
  IsReady seen (p ∷ ps) =
      ((r : Resource W) × (lookup (name_of h p) c.collection ≡ some r)
        × (r.id ≡ name_of h p)
        × (is_some (has_no_dependents h c r.id) ≡ true)
        × ((d : String) → needed r d ≡ true → mem_str d seen ≡ true)
        × ((d : String) → needed r d ≡ true → busy d ≡ true))
      × IsReady (name_of h p ∷ seen) ps

  -- Whatever a resource needs has an item.
  abbrev pub CanRun : Status → Resource W → Type 0
  CanRun items r = Returns r × ((d : String) → needed r d ≡ true → is_some (lookup d items) ≡ true)

  abbrev pub IsQueue : Status → List (Resource W) → Type 0
  IsQueue items [] = Unit
  IsQueue items (r ∷ rs) = ((busy r.id ≡ false) × CanRun items r) × IsQueue items rs

  pub record Inv (s : Running W) : Type 0 where
    pub seen : List String
    pub ready : IsReady seen s.todo
    pub cover :
        (d : String) → (mem_str d seen || mem_str d (names h s.todo)) ≡ mem_str d (names h c.sorted)
    pub alive : s.panicked ≡ false
    pub busy_done :
        (d : String)
        → mem_str d seen ≡ true
        → busy d ≡ true
        → is_some (lookup d s.shared.status) ≡ true
    pub all_sent :
        (d : String)
        → mem_str d seen ≡ true
        → (is_some (lookup d s.shared.status) || mem_str d (ids s.queue)) ≡ true
    pub queued : IsQueue s.shared.status s.queue

  -- Items are added and never removed.
  abbrev pub Grows : Status → Status → Type 0
  Grows a b = (d : String) → is_some (lookup d a) ≡ true → is_some (lookup d b) ≡ true

  pub IsQueue-Grows :
      (a b : Status) (rs : List (Resource W)) → Grows a b → IsQueue a rs → IsQueue b rs
  IsQueue-Grows a b [] g w = tt
  IsQueue-Grows a b (r ∷ rs) g w =
      ((w.0.0, (w.0.1.0, λ d n. g d (w.0.1.1 d n))), IsQueue-Grows a b rs g w.1)

  pub IsQueue-append :
      (a : Status) (rs qs : List (Resource W)) → IsQueue a rs → IsQueue a qs → IsQueue a (rs ++ qs)
  IsQueue-append a [] qs v w = w
  IsQueue-append a (r ∷ rs) qs v w = (v.0, IsQueue-append a rs qs v.1 w)

  pub IsQueue-split :
      (a : Status) (rs qs : List (Resource W)) → IsQueue a (rs ++ qs) → IsQueue a rs × IsQueue a qs
  IsQueue-split a [] qs w = (tt, w)
  IsQueue-split a (r ∷ rs) qs w = let (v, u) = IsQueue-split a rs qs w.1 in ((w.0, v), u)

  -- One resource that can run is processed.
  pub process_in-ok :
      (r : Resource W) (s : Running W)
      → CanRun s.shared.status r
      → (shared : Shared W) × (process_in h c r s ≡ record s { shared = shared })
        × ((k : String)
            → is_some (lookup k shared.status)
              ≡ (str_eq r.id k || is_some (lookup k s.shared.status)))
  unfolding process_in
  process_in-ok r s can =
      let (shared, done, items) =
        process-safe r c.config s.shared can.0 (λ d m. can.1 d (ground (arith, m)))
          (λ d m. can.1 d (ground (arith, m))) in
      (shared, rw (done, process_in), items)

  pub Lane-cases :
      (r : Resource W)
      → is_some (has_no_dependents h c r.id) ≡ true
      → (((lane h c r ≡ isolated) ⊎ (lane h c r ≡ no_dependents)) × (busy r.id ≡ false))
        ⊎ (lane h c r ≡ synchronous)
  unfolding lane
  Lane-cases r found = ground (arith, found)

-- ===== src/Utils/Guarded.antt =====
-- utils/map.go and utils/slice.go: containers that goroutines share under the lock of the package
-- `sync`.  A step is one move of one goroutine: the lock is taken where it is free, a body reads the
-- items and writes them in two moves, and what was deferred comes last.
pub mod Exclusion
pub mod Effects
pub mod Linear
pub mod Stuck
use gru.Prelude.{
  ℕ, suc, String, Bool, true, false, Option, none, some, List, [], ◌∷◌, ◌++◌, ◌≡◌, Map, lookup,
  insert, if◌then◌else◌,
}

-- A container: its operations, the items that Iter ranges over, and whether the call that Iter
-- defers is Lock in place of Unlock.
pub record Container : Type 1 where
  pub State : Type 0
  pub Op : Type 0
  pub Reply : Type 0
  pub Item : Type 0
  pub apply : Op → State → State × Reply
  pub items_of : State → List Item
  pub relocks : Bool

-- Where a goroutine is in Set, Get, Append or Iter.
pub data Goroutine (C : Container) : Type 0 where
  waiting : C.Op → Goroutine C
  entered : C.Op → Goroutine C
  loaded : C.Op → C.State → Goroutine C
  leaving : C.Op → C.Reply → Goroutine C
  returned : C.Op → C.Reply → Goroutine C
  iterating : Goroutine C
  -- The items that were sent and those that are left.
  sending : List C.Item → List C.Item → Goroutine C
  closed : List C.Item → Goroutine C
  ended : List C.Item → Goroutine C

pub record Guard (C : Container) : Type 0 where
  pub locked : Bool
  pub items : C.State

module _ (C : Container) where
  -- Lock waits while the lock is taken.
  unfoldable pub lock : Guard C → Goroutine C → Option (Guard C × Goroutine C)
  lock g x = if g.locked then none else some (record g { locked = true }, x)

  unfoldable pub unlock : Guard C → Goroutine C → Option (Guard C × Goroutine C)
  unlock g x = some (record g { locked = false }, x)

  -- The next move of a goroutine, if it has one that is not blocked.
  unfoldable pub move : Guard C → Goroutine C → Option (Guard C × Goroutine C)
  unfolding lock unlock
  move g (waiting o) = lock g (entered o)
  move g (entered o) = some (g, loaded o g.items)
  move g (loaded o m) = some (record g { items = (C.apply o m).0 }, leaving o (C.apply o m).1)
  move g (leaving o r) = unlock g (returned o r)
  move g (returned o r) = none
  move g iterating = lock g (sending [] (C.items_of g.items))
  move g (sending sent (x ∷ rest)) = some (g, sending (sent ++ (x ∷ [])) rest)
  move g (sending sent []) = some (g, closed sent)
  move g (closed sent) = if C.relocks then lock g (ended sent) else unlock g (ended sent)
  move g (ended sent) = none

  pub record System : Type 0 where
    pub guard : Guard C
    pub goroutines : List (Goroutine C)

  pub data Step (s : System) : System → Type 0 where
    pick :
        (before after : List (Goroutine C)) (x y : Goroutine C) (g : Guard C)
        → s.goroutines ≡ before ++ x ∷ after
        → move s.guard x ≡ some (g, y)
        → Step s (record { guard = g; goroutines = before ++ y ∷ after })

  pub data Reach (s : System) : System → Type 0 where
    here : Reach s s
    next : {t u : System} → Reach s t → Step t u → Reach s u

-- The operations of the map.
pub data MapOp (V : Type 0) : Type 0 where
  set : String → V → MapOp V
  get : String → MapOp V

unfoldable pub map_apply : {V : Type 0} → MapOp V → Map V → Map V × Option V
map_apply (set k v) m = (insert k v m, none)
map_apply (get k) m = (m, lookup k m)

unfoldable pub slice_apply : {V : Type 0} → V → List V → List V × Unit {0}
slice_apply v items = (items ++ v ∷ [], tt)

abbrev pub concurrent_map : Type 0 → Container
concurrent_map V = record {
  State = Map V;
  Op = MapOp V;
  Reply = Option V;
  Item = String × V;
  apply = map_apply;
  items_of = λ m. m;
  relocks = false;
}

-- An item of the slice goes with its index.
abbrev pub indexed : {V : Type 0} → ℕ → List V → List (ℕ × V)
indexed n [] = []
indexed n (v ∷ vs) = (n, v) ∷ indexed (suc n) vs

abbrev pub concurrent_slice : Type 0 → Container
concurrent_slice V = record {
  State = List V;
  Op = V;
  Reply = Unit {0};
  Item = ℕ × V;
  apply = slice_apply;
  items_of = indexed 0;
  relocks = true;
}

abbrev pub new_concurrent_map : {V : Type 0} → Guard (concurrent_map V)
new_concurrent_map = record { locked = false; items = [] }

abbrev pub new_concurrent_slice : {V : Type 0} → Guard (concurrent_slice V)
new_concurrent_slice = record { locked = false; items = [] }

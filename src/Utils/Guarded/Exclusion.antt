-- ===== src/Utils/Guarded/Exclusion.antt =====
-- Who holds the lock, and what follows from it.
use gru.Prelude.{
  ℕ, ◌+◌, ◌≤◌, Bool, true, false, Option, some, List, [], ◌∷◌, ◌++◌, ◌≡◌, refl, ap, arith,
  Bool-cases, inl, inr,
}
use gru.Utils.Guarded.{
  Container, Goroutine, waiting, entered, loaded, leaving, returned, iterating, sending, closed,
  ended, Guard, lock, unlock, move, System, Step, pick, Reach, here, next,
}

module _ (C : Container) where
  abbrev pub total : (Goroutine C → ℕ) → List (Goroutine C) → ℕ
  total f [] = 0
  total f (x ∷ xs) = f x + total f xs

  pub total-append :
      (f : Goroutine C → ℕ) (xs ys : List (Goroutine C))
      → total f (xs ++ ys) ≡ total f xs + total f ys
  total-append f [] ys = omega arith
  total-append f (x ∷ xs) ys = omega (arith, total-append f xs ys)

  -- A goroutine that has the lock, and is still to do something with it; one that has closed the
  -- channel of an iteration.
  abbrev pub busy : Goroutine C → ℕ
  busy (waiting o) = 0
  busy (entered o) = 1
  busy (loaded o m) = 1
  busy (leaving o r) = 1
  busy (returned o r) = 0
  busy iterating = 0
  busy (sending sent rest) = 1
  busy (closed sent) = 0
  busy (ended sent) = 0

  abbrev pub closing : Goroutine C → ℕ
  closing (closed sent) = 1
  closing _ = 0

  abbrev pub holds : Goroutine C → ℕ
  holds x = busy x + closing x

  abbrev pub bit : Bool → ℕ
  bit true = 1
  bit false = 0

  pub bit_le : (b : Bool) → bit b ≤ 1
  bit_le true = omega arith
  bit_le false = omega arith

  -- A goroutine that has not yet begun.
  abbrev pub IsNew : Goroutine C → Type 0
  IsNew (waiting o) = Unit
  IsNew iterating = Unit
  IsNew _ = ⊥

  -- What a move comes to.
  abbrev pub after : Guard C → Goroutine C → Option (Guard C × Goroutine C)
  after g x = some (g, x)

  pub lock-some :
      (g g' : Guard C) (y z : Goroutine C)
      → lock C g z ≡ some (g', y)
      → (g.locked ≡ false) × (record g { locked = true } ≡ g') × (z ≡ y)
  unfolding lock
  lock-some g g' y z e = elim (Bool-cases g.locked) [
    | inl h ↦ absurd (ground (arith, h, e))
    | inr h ↦
        let pair : after (record g { locked = true }) z ≡ after g' y = ground (arith, h, e) in
        (h, cc pair, cc pair)
  ]

  pub unlock-some :
      (g g' : Guard C) (y z : Goroutine C)
      → unlock C g z ≡ some (g', y)
      → (record g { locked = false } ≡ g') × (z ≡ y)
  unfolding unlock
  unlock-some g g' y z e = (cc e, cc e)

  -- The lock is taken as often as the holders say, before and after a move.
  abbrev Balances : Guard C → Goroutine C → Guard C → Goroutine C → Type 0
  Balances g x g' y = bit g'.locked + holds x ≡ bit g.locked + holds y

  locks-Balances :
      (g g' : Guard C) (x y z : Goroutine C)
      → holds x ≡ 0
      → holds z ≡ 1
      → lock C g z ≡ some (g', y)
      → Balances g x g' y
  locks-Balances g g' x y z free held e =
      let (unlocked, guard, same) = lock-some g g' y z e in
      omega (
        arith,
        free,
        held,
        ap bit unlocked,
        ap (λ (q : Guard C). bit q.locked) guard,
        ap holds same,
      )

  unlocks-Balances :
      (g g' : Guard C) (x y z : Goroutine C)
      → holds x ≡ 1
      → holds z ≡ 0
      → 1 ≤ bit g.locked
      → unlock C g z ≡ some (g', y)
      → Balances g x g' y
  unlocks-Balances g g' x y z held free taken e =
      let (guard, same) = unlock-some g g' y z e in
      omega (
        arith,
        free,
        held,
        bit_le g.locked,
        ap (λ (q : Guard C). bit q.locked) guard,
        ap holds same,
      )

  stays-Balances :
      (g g' : Guard C) (x y z : Goroutine C)
      → holds x ≡ holds z
      → after g z ≡ after g' y
      → Balances g x g' y
  stays-Balances g g' x y z same e =
      let guard : g ≡ g' = cc e in
      let goes : z ≡ y = cc e in
      omega (arith, same, ap (λ (q : Guard C). bit q.locked) guard, ap holds goes)

  move-Balances :
      (g g' : Guard C) (x y : Goroutine C)
      → holds x ≤ bit g.locked
      → move C g x ≡ some (g', y)
      → Balances g x g' y
  unfolding move
  move-Balances g g' (waiting o) y room e =
      locks-Balances g g' (waiting o) y (entered o) refl refl e
  move-Balances g g' (entered o) y room e =
      stays-Balances g g' (entered o) y (loaded o g.items) refl e
  move-Balances g g' (loaded o m) y room e =
      stays-Balances (record g { items = (C.apply o m).0 }) g' (loaded o m) y
        (leaving o (C.apply o m).1) refl e
  move-Balances g g' (leaving o r) y room e =
      unlocks-Balances g g' (leaving o r) y (returned o r) refl refl room e
  move-Balances g g' (returned o r) y room e = cc e
  move-Balances g g' iterating y room e =
      locks-Balances g g' iterating y (sending [] (C.items_of g.items)) refl refl e
  move-Balances g g' (sending sent (i ∷ rest)) y room e =
      stays-Balances g g' (sending sent (i ∷ rest)) y (sending (sent ++ (i ∷ [])) rest) refl e
  move-Balances g g' (sending sent []) y room e =
      stays-Balances g g' (sending sent []) y (closed sent) refl e
  move-Balances g g' (closed sent) y room e = elim (Bool-cases C.relocks) [
    | inl h ↦
        let (unlocked, guard, same) = lock-some g g' y (ended sent) (ground (arith, h, e)) in
        absurd (omega (arith, room, ap bit unlocked))
    | inr h ↦
        unlocks-Balances g g' (closed sent) y (ended sent) refl refl room (ground (arith, h, e))
  ]
  move-Balances g g' (ended sent) y room e = cc e

  -- The lock is taken exactly where a goroutine holds it, and never more than one does.
  unfoldable pub IsExclusive : System C → Type 0
  IsExclusive s = total holds s.goroutines ≡ bit s.guard.locked

  Step-IsExclusive : {s t : System C} → Step C s t → IsExclusive s → IsExclusive t
  unfolding IsExclusive
  Step-IsExclusive {s} (pick before after x y g at e) one =
      let parts = total-append holds before (x ∷ after) in
      let now = ap (total holds) at in
      let moved = move-Balances s.guard g x y (omega (arith, one, parts, now)) e in
      omega (arith, one, parts, now, moved, total-append holds before (y ∷ after))

  -- None has begun.
  abbrev pub AllNew : List (Goroutine C) → Type 0
  AllNew [] = Unit
  AllNew (x ∷ xs) = IsNew x × AllNew xs

  new-holds : (x : Goroutine C) → IsNew x → holds x ≡ 0
  new-holds (waiting o) h = refl
  new-holds iterating h = refl
  new-holds (entered o) h = absurd h
  new-holds (loaded o m) h = absurd h
  new-holds (leaving o r) h = absurd h
  new-holds (returned o r) h = absurd h
  new-holds (sending sent rest) h = absurd h
  new-holds (closed sent) h = absurd h
  new-holds (ended sent) h = absurd h

  new-total : (xs : List (Goroutine C)) → AllNew xs → total holds xs ≡ 0
  new-total [] h = refl
  new-total (x ∷ xs) h = omega (arith, new-holds x h.0, new-total xs h.1)

  abbrev pub begun : C.State → List (Goroutine C) → System C
  begun m xs = record { guard = record { locked = false; items = m }; goroutines = xs }

  -- Whatever goroutines begin on a container and in whatever order they move, the lock is taken
  -- exactly while one of them is between its Lock and what it deferred, and by one at most.
  pub Reach-IsExclusive :
      (m : C.State) (xs : List (Goroutine C)) (s : System C)
      → AllNew xs
      → Reach C (begun m xs) s
      → IsExclusive s
  unfolding IsExclusive
  Reach-IsExclusive m xs s fresh here = new-total xs fresh
  Reach-IsExclusive m xs s fresh (next {t} r step) =
      Step-IsExclusive step (Reach-IsExclusive m xs t fresh r)

-- ===== src/Utils/Guarded/Stuck.antt =====
-- The Iter of the slice, which defers Lock where Unlock is meant.
use gru.Prelude.{◌+◌, ◌≤◌, Bool, true, false, some, List, [], ◌∷◌, ◌++◌, ◌≡◌, refl, ap, arith}
use gru.Utils.Guarded.{
  Container, Goroutine, waiting, entered, loaded, leaving, returned, iterating, sending, closed,
  ended, Guard, move, System, Step, pick, Reach,
}
use gru.Utils.Guarded.Exclusion.{
  total, total-append, busy, closing, holds, bit, lock-some, IsExclusive, Reach-IsExclusive, begun,
  AllNew,
}

module _ (C : Container) where
  total-holds :
      (xs : List (Goroutine C))
      → total C (holds C) xs ≡ total C (busy C) xs + total C (closing C) xs
  total-holds [] = omega arith
  total-holds (x ∷ xs) = omega (arith, total-holds xs)

  -- Where the lock is taken and Iter takes it again, only a goroutine in its body moves.
  move-busy :
      C.relocks ≡ true
      → (g g' : Guard C) (x y : Goroutine C) → g.locked ≡ true
      → move C g x ≡ some (g', y)
      → busy C x ≡ 1
  unfolding move
  move-busy relocks g g' (waiting o) y taken e = cc (taken, (lock-some C g g' y (entered o) e).0)
  move-busy relocks g g' (entered o) y taken e = refl
  move-busy relocks g g' (loaded o m) y taken e = refl
  move-busy relocks g g' (leaving o r) y taken e = refl
  move-busy relocks g g' (returned o r) y taken e = cc e
  move-busy relocks g g' iterating y taken e =
      cc (taken, (lock-some C g g' y (sending [] (C.items_of g.items)) e).0)
  move-busy relocks g g' (sending sent rest) y taken e = refl
  move-busy relocks g g' (closed sent) y taken e =
      cc (taken, (lock-some C g g' y (ended sent) (ground (arith, relocks, e))).0)
  move-busy relocks g g' (ended sent) y taken e = cc e

  taken_at : (b : Bool) → 1 ≤ bit C b → b ≡ true
  taken_at true h = refl
  taken_at false h = absurd (omega (arith, h))

  no-Step :
      C.relocks ≡ true
      → (s t : System C) (before after : List (Goroutine C)) (sent : List C.Item) → IsExclusive C s
      → s.goroutines ≡ before ++ closed sent ∷ after
      → Step C s t
      → ⊥
  unfolding IsExclusive
  no-Step relocks s t before after sent one at (pick left right x y g there e) =
      let closers = ap (total C (closing C)) at in
      let closed_one = total-append C (closing C) before (closed sent ∷ after) in
      let movers = ap (total C (busy C)) there in
      let mover = total-append C (busy C) left (x ∷ right) in
      let both = total-holds s.goroutines in
      let taken = taken_at s.guard.locked (omega (arith, one, both, closers, closed_one)) in
      omega (
        arith,
        one,
        both,
        closers,
        closed_one,
        movers,
        mover,
        ap (bit C) taken,
        move-busy relocks s.guard g x y taken e,
      )

  -- On a container whose Iter defers Lock, no goroutine moves any more once an iteration has closed
  -- its channel: not the one that iterated, and no other that waits or is still to begin.
  pub Step-ne_closed :
      C.relocks ≡ true
      → (m : C.State) (xs : List (Goroutine C)) (s t : System C) → AllNew C xs
      → Reach C (begun C m xs) s
      → (before after : List (Goroutine C)) (sent : List C.Item)
      → s.goroutines ≡ before ++ closed sent ∷ after
      → ¬ Step C s t
  Step-ne_closed relocks m xs s t fresh r before after sent at =
      no-Step relocks s t before after sent (Reach-IsExclusive C m xs s fresh r) at

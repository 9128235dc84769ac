-- ===== src/Utils/Guarded/Effects.antt =====
-- What a move does to the items, and what the goroutines know of them.
use gru.Prelude.{
  ◌≤◌, some, List, [], ◌∷◌, ◌++◌, ◌≡◌, refl, sym, subst, ap, arith, Bool-cases, inl, inr, ◌⊎◌,
  append_assoc,
}
use mathlib.Core.List.{append-nil}
use gru.Utils.Guarded.{
  Container, Goroutine, waiting, entered, loaded, leaving, returned, iterating, sending, closed,
  ended, Guard, lock, unlock, move,
}
use gru.Utils.Guarded.Exclusion.{holds, after, lock-some, unlock-some}

module _ (C : Container) where
  -- A call that took effect, with its reply, or an iteration with all its items.
  pub data Call : Type 0 where
    call : C.Op → C.Reply → Call
    iteration : List C.Item → Call

  abbrev pub Acts : Call → C.State → C.State → Type 0
  Acts (call o r) m m' = (r ≡ (C.apply o m).1) × (m' ≡ (C.apply o m).0)
  Acts (iteration items) m m' = (items ≡ C.items_of m) × (m' ≡ m)

  -- The calls one after another lead from one state to the other.
  abbrev pub Replays : C.State → List Call → C.State → Type 0
  Replays m [] m' = m' ≡ m
  Replays m (c ∷ cs) m' = (n : C.State) × Acts c m n × Replays n cs m'

  pub Replays-append :
      (m n n' : C.State) (cs : List Call) (c : Call)
      → Replays m cs n
      → Acts c n n'
      → Replays m (cs ++ (c ∷ [])) n'
  Replays-append m n n' [] c same acts = (n', subst (λ x. Acts c x n') same acts, refl)
  Replays-append m n n' (d ∷ cs) c (o, first, rest) acts =
      (o, first, Replays-append o n n' cs c rest acts)

  -- What a goroutine has done to the items.
  abbrev pub calls_of : Goroutine C → List Call
  calls_of (waiting o) = []
  calls_of (entered o) = []
  calls_of (loaded o m) = []
  calls_of (leaving o r) = call o r ∷ []
  calls_of (returned o r) = call o r ∷ []
  calls_of iterating = []
  calls_of (sending sent rest) = iteration (sent ++ rest) ∷ []
  calls_of (closed sent) = iteration sent ∷ []
  calls_of (ended sent) = iteration sent ∷ []

  abbrev pub all_calls : List (Goroutine C) → List Call
  all_calls [] = []
  all_calls (x ∷ xs) = calls_of x ++ all_calls xs

  -- What a goroutine has read is still there.
  abbrev pub IsFresh : C.State → Goroutine C → Type 0
  IsFresh m (loaded o n) = n ≡ m
  IsFresh m _ = Unit

  -- A move takes no effect, or it is a call that does.
  abbrev pub Effect : Guard C → Goroutine C → Guard C → Goroutine C → Type 0
  Effect g x g' y =
      ((calls_of y ≡ calls_of x) × (g'.items ≡ g.items))
      ⊎ ((c : Call) × (calls_of x ≡ []) × (calls_of y ≡ c ∷ []) × Acts c g.items g'.items)

  after-Effect :
      (g h g' : Guard C) (x z y : Goroutine C)
      → Effect g x h z
      → after C h z ≡ after C g' y
      → Effect g x g' y
  after-Effect g h g' x z y effect e =
      let guard : h ≡ g' = cc e in
      let goes : z ≡ y = cc e in
      subst (λ (w : Goroutine C). Effect g x g' w) goes
        (subst (λ (q : Guard C). Effect g x q z) guard effect)

  lock-Effect :
      (g g' : Guard C) (x y z : Goroutine C)
      → calls_of z ≡ calls_of x
      → lock C g z ≡ some (g', y)
      → Effect g x g' y
  lock-Effect g g' x y z same e =
      let (free, guard, goes) = lock-some C g g' y z e in
      inl (cc (ap calls_of goes, same), cc (ap (λ (q : Guard C). q.items) guard))

  unlock-Effect :
      (g g' : Guard C) (x y z : Goroutine C)
      → calls_of z ≡ calls_of x
      → unlock C g z ≡ some (g', y)
      → Effect g x g' y
  unlock-Effect g g' x y z same e =
      let (guard, goes) = unlock-some C g g' y z e in
      inl (cc (ap calls_of goes, same), cc (ap (λ (q : Guard C). q.items) guard))

  pub move-Effect :
      (g g' : Guard C) (x y : Goroutine C)
      → IsFresh g.items x
      → move C g x ≡ some (g', y)
      → Effect g x g' y
  unfolding move
  move-Effect g g' (waiting o) y fresh e = lock-Effect g g' (waiting o) y (entered o) refl e
  move-Effect g g' (entered o) y fresh e =
      after-Effect g g g' (entered o) (loaded o g.items) y (inl (refl, refl)) e
  move-Effect g g' (loaded o m) y fresh e =
      after-Effect g (record g { items = (C.apply o m).0 }) g' (loaded o m)
        (leaving o (C.apply o m).1) y
        (inr (
          call o (C.apply o m).1,
          refl,
          refl,
          (ap (λ n. (C.apply o n).1) fresh, ap (λ n. (C.apply o n).0) fresh),
        ))
        e
  move-Effect g g' (leaving o r) y fresh e =
      unlock-Effect g g' (leaving o r) y (returned o r) refl e
  move-Effect g g' (returned o r) y fresh e = cc e
  move-Effect g g' iterating y fresh e =
      let items = C.items_of g.items in
      let (free, guard, goes) = lock-some C g g' y (sending [] items) e in
      subst (λ (w : Goroutine C). Effect g iterating g' w) goes
        (subst (λ (q : Guard C). Effect g iterating q (sending [] items)) guard
          (inr (iteration items, refl, refl, (refl, refl))))
  move-Effect g g' (sending sent (i ∷ rest)) y fresh e =
      after-Effect g g g' (sending sent (i ∷ rest)) (sending (sent ++ (i ∷ [])) rest) y
        (inl (ap (λ items. iteration items ∷ []) (append_assoc sent (i ∷ []) rest), refl)) e
  move-Effect g g' (sending sent []) y fresh e =
      after-Effect g g g' (sending sent []) (closed sent) y
        (inl (ap (λ items. iteration items ∷ []) (sym (append-nil sent)), refl)) e
  move-Effect g g' (closed sent) y fresh e = elim (Bool-cases C.relocks) [
    | inl h ↦ lock-Effect g g' (closed sent) y (ended sent) refl (ground (arith, h, e))
    | inr h ↦ unlock-Effect g g' (closed sent) y (ended sent) refl (ground (arith, h, e))
  ]
  move-Effect g g' (ended sent) y fresh e = cc e

  -- A write is that of a goroutine that holds the lock.
  pub move-kept :
      (g g' : Guard C) (x y : Goroutine C)
      → move C g x ≡ some (g', y)
      → (g'.items ≡ g.items) ⊎ (1 ≤ holds C x)
  unfolding move
  move-kept g g' (waiting o) y e =
      let (free, guard, goes) = lock-some C g g' y (entered o) e in
      inl (cc (ap (λ (q : Guard C). q.items) guard))
  move-kept g g' (entered o) y e = inr (omega arith)
  move-kept g g' (loaded o m) y e = inr (omega arith)
  move-kept g g' (leaving o r) y e = inr (omega arith)
  move-kept g g' (returned o r) y e = cc e
  move-kept g g' iterating y e =
      let (free, guard, goes) = lock-some C g g' y (sending [] (C.items_of g.items)) e in
      inl (cc (ap (λ (q : Guard C). q.items) guard))
  move-kept g g' (sending sent rest) y e = inr (omega arith)
  move-kept g g' (closed sent) y e = inr (omega arith)
  move-kept g g' (ended sent) y e = cc e

  pub move-IsFresh :
      (g g' : Guard C) (x y : Goroutine C) → move C g x ≡ some (g', y) → IsFresh g'.items y
  unfolding move
  move-IsFresh g g' (waiting o) y e =
      subst (IsFresh g'.items) ((lock-some C g g' y (entered o) e).2) tt
  move-IsFresh g g' (entered o) y e =
      let guard : g ≡ g' = cc e in
      let goes : loaded o g.items ≡ y = cc e in
      subst (IsFresh g'.items) goes (ap (λ (q : Guard C). q.items) guard)
  move-IsFresh g g' (loaded o m) y e =
      let goes : leaving o (C.apply o m).1 ≡ y = cc e in subst (IsFresh g'.items) goes tt
  move-IsFresh g g' (leaving o r) y e =
      subst (IsFresh g'.items) ((unlock-some C g g' y (returned o r) e).1) tt
  move-IsFresh g g' (returned o r) y e = cc e
  move-IsFresh g g' iterating y e =
      subst (IsFresh g'.items) ((lock-some C g g' y (sending [] (C.items_of g.items)) e).2) tt
  move-IsFresh g g' (sending sent (i ∷ rest)) y e =
      let goes : sending (sent ++ (i ∷ [])) rest ≡ y = cc e in subst (IsFresh g'.items) goes tt
  move-IsFresh g g' (sending sent []) y e =
      let goes : closed sent ≡ y = cc e in subst (IsFresh g'.items) goes tt
  move-IsFresh g g' (closed sent) y e = elim (Bool-cases C.relocks) [
    | inl h ↦
        subst (IsFresh g'.items) ((lock-some C g g' y (ended sent) (ground (arith, h, e))).2) tt
    | inr h ↦
        subst (IsFresh g'.items) ((unlock-some C g g' y (ended sent) (ground (arith, h, e))).1) tt
  ]
  move-IsFresh g g' (ended sent) y e = cc e

-- ===== src/Utils/Guarded/Linear.antt =====
-- The container as one goroutine at a time would see it.
use gru.Prelude.{
  ◌≤◌, some, List, [], ◌∷◌, ◌++◌, ◌≡◌, refl, sym, subst, ◌∙◌, ap, arith, inl, inr, All, All-append,
  All-split, append_assoc,
}
use mathlib.Core.List.{Perm, perm_middle, append-nil}
use mathlib.Core.List.Perm
use gru.Utils.Guarded.{
  Container, Goroutine, waiting, entered, loaded, leaving, returned, iterating, sending, closed,
  ended, Guard, move, System, Step, pick, Reach, here, next,
}
use gru.Utils.Guarded.Exclusion.{
  total, total-append, holds, bit_le, IsExclusive, Reach-IsExclusive, begun, AllNew, IsNew,
}
use gru.Utils.Guarded.Effects.{
  Call, Replays, Replays-append, calls_of, all_calls, IsFresh, Effect, move-Effect, move-kept,
  move-IsFresh,
}

module _ (C : Container) where
  idle-IsFresh : (m : C.State) (x : Goroutine C) → holds C x ≡ 0 → IsFresh C m x
  idle-IsFresh m (waiting o) h = tt
  idle-IsFresh m (entered o) h = tt
  idle-IsFresh m (loaded o n) h = absurd (omega (arith, h))
  idle-IsFresh m (leaving o r) h = tt
  idle-IsFresh m (returned o r) h = tt
  idle-IsFresh m iterating h = tt
  idle-IsFresh m (sending sent rest) h = tt
  idle-IsFresh m (closed sent) h = tt
  idle-IsFresh m (ended sent) h = tt

  All-idle :
      (m : C.State) (xs : List (Goroutine C)) → total C (holds C) xs ≡ 0 → All (IsFresh C m) xs
  All-idle m [] h = tt
  All-idle m (x ∷ xs) h = (idle-IsFresh m x (omega (arith, h)), All-idle m xs (omega (arith, h)))

  -- The other goroutines know what is there after a move as they did before.
  others-IsFresh :
      (g g' : Guard C) (x y : Goroutine C) (before after : List (Goroutine C))
      → move C g x ≡ some (g', y)
      → total C (holds C) (before ++ x ∷ after) ≤ 1
      → All (IsFresh C g.items) before
      → All (IsFresh C g.items) after
      → All (IsFresh C g'.items) before × All (IsFresh C g'.items) after
  others-IsFresh g g' x y before after e few hb ha = elim (move-kept C g g' x y e) [
    | inl same ↦ (
      subst (λ m. All (IsFresh C m) before) (sym same) hb,
      subst (λ m. All (IsFresh C m) after) (sym same) ha,
    )
    | inr held ↦
        let parts = total-append C (holds C) before (x ∷ after) in
        (
          All-idle g'.items before (omega (arith, few, held, parts)),
          All-idle g'.items after (omega (arith, few, held, parts)),
        )
  ]

  all_calls-append :
      (xs ys : List (Goroutine C)) → all_calls C (xs ++ ys) ≡ all_calls C xs ++ all_calls C ys
  all_calls-append [] ys = refl
  all_calls-append (x ∷ xs) ys =
      ap (λ cs. calls_of C x ++ cs) (all_calls-append xs ys)
      ∙ sym (append_assoc (calls_of C x) (all_calls C xs) (all_calls C ys))

  calls_at :
      (before after : List (Goroutine C)) (x : Goroutine C) (cs : List (Call C))
      → calls_of C x ≡ cs
      → all_calls C (before ++ x ∷ after) ≡ all_calls C before ++ (cs ++ all_calls C after)
  calls_at before after x cs e =
      all_calls-append before (x ∷ after)
      ∙ ap (λ ds. all_calls C before ++ (ds ++ all_calls C after)) e

  -- What was done, in some order, one call after another, leads to what is there.
  pub record IsLinear (m : C.State) (s : System C) : Type 0 where
    pub log : List (Call C)
    pub done : Perm (all_calls C s.goroutines) log
    pub replays : Replays C m log s.guard.items

  -- A call that takes effect comes last.
  logged :
      (before after : List (Call C)) (c : Call C) (log : List (Call C))
      → Perm (before ++ after) log
      → Perm (before ++ c ∷ after) (log ++ (c ∷ []))
  logged before after c log p = Perm.trans (perm_middle before after) (
      Perm.trans (Perm.cons c p) (
        Perm.symm
          (subst (λ l. Perm (log ++ (c ∷ [])) (c ∷ l)) (append-nil log) (perm_middle log []))))

  move-IsLinear :
      (m : C.State) (s : System C) (g : Guard C) (x y : Goroutine C)
      (before after : List (Goroutine C))
      → s.goroutines ≡ before ++ x ∷ after
      → Effect C s.guard x g y
      → IsLinear m s
      → IsLinear m (record { guard = g; goroutines = before ++ y ∷ after })
  move-IsLinear m s g x y before after at (inl (same, kept)) l = record {
    log = l.log;
    done =
        subst (λ cs. Perm cs l.log)
          (ap (all_calls C) at
            ∙ calls_at before after x (calls_of C x) refl
            ∙ sym (calls_at before after y (calls_of C x) same))
          l.done;
    replays = subst (Replays C m l.log) (sym kept) l.replays;
  }
  move-IsLinear m s g x y before after at (inr (c, none_before, one_after, acts)) l = record {
    log = l.log ++ (c ∷ []);
    done =
        subst (λ cs. Perm cs (l.log ++ (c ∷ []))) (sym (calls_at before after y (c ∷ []) one_after))
          (logged (all_calls C before) (all_calls C after) c l.log (
            subst (λ cs. Perm cs l.log)
              (ap (all_calls C) at ∙ calls_at before after x [] none_before) l.done));
    replays = Replays-append C m s.guard.items g.items l.log c l.replays acts;
  }

  -- What a run keeps.
  record IsKept (m : C.State) (s : System C) : Type 0 where
    exclusive : IsExclusive C s
    fresh : All (IsFresh C s.guard.items) s.goroutines
    linear : IsLinear m s

  Step-IsKept :
      (m : C.State) {s t : System C} → Step C s t → IsExclusive C t → IsKept m s → IsKept m t
  unfolding IsExclusive
  Step-IsKept m {s} (pick before after x y g at e) after_it k =
      let few : total C (holds C) (before ++ x ∷ after) ≤ 1 =
        omega (arith, k.exclusive, ap (total C (holds C)) at, bit_le C s.guard.locked) in
      let (hb, (hx, ha)) =
        All-split (IsFresh C s.guard.items) before (x ∷ after)
          (subst (All (IsFresh C s.guard.items)) at k.fresh) in
      let (kb, ka) = others-IsFresh s.guard g x y before after e few hb ha in
      record {
        exclusive = after_it;
        fresh =
            All-append (IsFresh C g.items) before (y ∷ after) kb
              (move-IsFresh C s.guard g x y e, ka);
        linear =
            move-IsLinear m s g x y before after at (move-Effect C s.guard g x y hx e) k.linear;
      }

  new-idle : (x : Goroutine C) → IsNew C x → (m : C.State) → IsFresh C m x × (calls_of C x ≡ [])
  new-idle (waiting o) h m = (tt, refl)
  new-idle iterating h m = (tt, refl)
  new-idle (entered o) h m = absurd h
  new-idle (loaded o n) h m = absurd h
  new-idle (leaving o r) h m = absurd h
  new-idle (returned o r) h m = absurd h
  new-idle (sending sent rest) h m = absurd h
  new-idle (closed sent) h m = absurd h
  new-idle (ended sent) h m = absurd h

  new-IsKept :
      (m : C.State) (xs : List (Goroutine C))
      → AllNew C xs
      → All (IsFresh C m) xs × (all_calls C xs ≡ [])
  new-IsKept m [] h = (tt, refl)
  new-IsKept m (x ∷ xs) h =
      let (fresh, silent) = new-idle x h.0 m in
      let (all_fresh, all_silent) = new-IsKept m xs h.1 in
      ((fresh, all_fresh), cc (silent, all_silent))

  Reach-IsKept :
      (m : C.State) (xs : List (Goroutine C)) (s : System C)
      → AllNew C xs
      → Reach C (begun C m xs) s
      → IsKept m s
  Reach-IsKept m xs s new here =
      let (fresh, silent) = new-IsKept m xs new in
      record {
        exclusive = Reach-IsExclusive C m xs (begun C m xs) new here;
        fresh = fresh;
        linear = record {
          log = [];
          done = subst (λ cs. Perm cs []) (sym silent) Perm.nil;
          replays = refl;
        };
      }
  Reach-IsKept m xs s new (next {t} r step) =
      Step-IsKept m step (Reach-IsExclusive C m xs s new (next r step)) (Reach-IsKept m xs t new r)

  -- Whatever goroutines begin on a container and in whatever order they move, there is an order of
  -- the calls that took effect, one after another, that leads to the items that are there: the
  -- replies are those of that order, and what an iteration has sent and is still to send are the
  -- items at its place in that order.
  pub Reach-IsLinear :
      (m : C.State) (xs : List (Goroutine C)) (s : System C)
      → AllNew C xs
      → Reach C (begun C m xs) s
      → IsLinear m s
  Reach-IsLinear m xs s new r = (Reach-IsKept m xs s new r).linear

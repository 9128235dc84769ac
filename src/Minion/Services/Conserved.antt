-- ===== src/Minion/Services/Conserved.antt =====
-- Between the queue and the runner no task is doubled, and none is lost but those that the listener
-- could not save.
use gru.Prelude.{
  ◌+◌, Bool, Option, none, some, List, [], ◌∷◌, ◌++◌, ◌≡◌, refl, sym, ◌∙◌, append-nil, append_assoc,
  ap, arith,
}
use gru.Errors.{Error, ok}
use gru.Task.{Task}
use gru.Classifier.{Registry}
use gru.Resource.Collection.{keys}
use gru.Graph.Sets.{MapSet}
use gru.Minion.{Host}
use gru.Minion.Keys.{Minion, serve}
use gru.Minion.Services.{
  selecting, watching, classifying, reading, receiving, Services, Act, started, start, Step, pick,
  tick, watch, receive, finish, outside, deleted_by, deleted_at, lost_at, close_queue, close_done,
  see_done, Run, here, next,
}
use gru.Minion.Services.History.{
  all_taken, all_lost, all_handed, all_ended, in_hand, offer, offers, count, count-append,
  count-replaced,
}
use gru.Minion.Services.Balanced.{advance-Balanced, hear-Balanced, resume-offer}

module _ (sets : MapSet) {W : Type 0} (host : Host W) (m : Minion) (registry : Registry W) where
  -- Since a state s₀ every task that was deleted from the queue or offered was handed to the runner, is
  -- offered, or was lost when it could not be saved, as often, and the runner processes the tasks one at a time in the order of the sends.
  unfoldable pub IsConserved : Services W → List Act → Services W → Type 0
  IsConserved s₀ acts s =
      (in_hand s₀.runner ++ all_handed acts ≡ all_ended acts ++ in_hand s.runner)
      × ((p : Task → Bool)
          → count p (all_taken acts) + count p (offers s₀.services)
            ≡ count p (all_handed acts) + count p (all_lost acts) + count p (offers s.services))

  Step-IsConserved :
      (s₀ : Services W) (acts : List Act) (s : Services W) {act : Act} {t : Services W}
      → Step sets host m registry s act t
      → IsConserved s₀ acts s
      → IsConserved s₀ (act ∷ acts) t
  unfolding IsConserved all_taken all_lost all_handed all_ended
  Step-IsConserved s₀ acts s (pick before after x y w at e) (one, all) = (
    one,
    λ p. omega (
      arith,
      all p,
      count-append p (all_taken acts) (deleted_by host m x),
      count-append p (all_lost acts) [],
      ap (count p) (advance-Balanced sets host m registry x y s.world w e),
      count-append p (offer x) (deleted_by host m x),
      count-replaced p before after x y,
      ap (λ xs. count p (offers xs)) at,
    ),
  )
  Step-IsConserved s₀ acts s (watch before after y ev w at e) (one, all) = (
    one,
    λ p. omega (
      arith,
      all p,
      count-append p (all_taken acts) (deleted_at host m ev s.world),
      count-append p (all_lost acts) (lost_at host m ev s.world),
      count-append p (offer y) (lost_at host m ev s.world),
      ap (count p) (hear-Balanced sets host m registry ev s.world y w e),
      count-replaced p before after watching y,
      ap (λ xs. count p (offers xs)) at,
    ),
  )
  Step-IsConserved s₀ acts s (tick before after time at) (one, all) = (
    one,
    λ p. omega (
      arith,
      all p,
      count-append p (all_taken acts) [],
      count-append p (all_lost acts) [],
      count-replaced p before after selecting (classifying (some time) (keys registry)),
      ap (λ xs. count p (offers xs)) at,
    ),
  )
  Step-IsConserved s₀ acts s (receive before after x y t at e shown free) (one, all) =
      let (gone, left) = resume-offer sets host m registry x y t e in
      (
        sym (append_assoc (in_hand s₀.runner) (all_handed acts) (t ∷ []))
            ∙ ap (λ ts. ts ++ t ∷ [])
                (one ∙ ap (λ r. all_ended acts ++ in_hand r) free ∙ append-nil (all_ended acts)),
        λ p. omega (
          arith,
          all p,
          count-append p (all_handed acts) (t ∷ []),
          ap (count p) gone,
          ap (count p) left,
          count-replaced p before after x y,
          ap (λ xs. count p (offers xs)) at,
        ),
      )
  Step-IsConserved s₀ acts s (finish t t₁ e w busy done) (one, all) = (
    one ∙ ap (λ r. all_ended acts ++ in_hand r) busy ∙ sym (append-nil (all_ended acts ++ t ∷ [])),
    all,
  )
  Step-IsConserved s₀ acts s (outside w) (one, all) = (
    one,
    λ p.
        omega (arith, all p, count-append p (all_taken acts) [], count-append p (all_lost acts) []),
  )
  Step-IsConserved s₀ acts s (close_queue shown) (one, all) = (
    one,
    λ p.
        omega (arith, all p, count-append p (all_taken acts) [], count-append p (all_lost acts) []),
  )
  Step-IsConserved s₀ acts s (close_done shut shown) (one, all) = (
    one,
    λ p.
        omega (arith, all p, count-append p (all_taken acts) [], count-append p (all_lost acts) []),
  )
  Step-IsConserved s₀ acts s (see_done shut) (one, all) = (
    one,
    λ p.
        omega (arith, all p, count-append p (all_taken acts) [], count-append p (all_lost acts) []),
  )

  -- In whatever order the services move: the tasks that were offered before or were deleted from the
  -- queue since are those that were handed to the runner, those that the listener could not save, and
  -- those that a goroutine offers now, each as often; and the runner has processed the tasks handed to it, after the one it
  -- had in hand, one at a time in the order of the sends, save the one it has in hand now.
  pub Run-IsConserved :
      (s₀ : Services W) (acts : List Act) (t : Services W)
      → Run sets host m registry s₀ acts t
      → IsConserved s₀ acts t
  unfolding IsConserved all_taken all_lost all_handed all_ended
  Run-IsConserved s₀ _ _ here = (append-nil (in_hand s₀.runner), λ p. refl)
  Run-IsConserved s₀ (act ∷ acts) t (next {t = s} run step) =
      Step-IsConserved s₀ acts s step (Run-IsConserved s₀ acts s run)

  -- A minion that has begun offers nothing, and has nothing in hand.
  started-IsFresh :
      (p : Option Error × W) (s : Services W)
      → started sets host m registry p ≡ ok s
      → (in_hand s.runner ≡ []) × (offers s.services ≡ [])
  unfolding started
  started-IsFresh (some e, w) s h = absurd (cc h)
  started-IsFresh (none, w) s h =
      let runner : receiving ≡ s.runner = cc h in
      let services : classifying none (keys registry) ∷ reading none ∷ selecting ∷ watching ∷ []
          ≡ s.services =
        cc h in
      (sym (ap in_hand runner), sym (ap offers services))

  -- Where `Serve` returned no error, and in whatever order the services moved since: the tasks of the
  -- nodes that they deleted from the queue, those of the listener marked as queued, are those that
  -- were handed to the runner, those that the listener gave up because it could not save them, and
  -- those that a goroutine offers now, each as often; and the runner has processed the tasks handed to it one at a time in
  -- the order of the sends, save the one it has in hand.
  pub start-conserved :
      (w : W) (s₀ : Services W) (acts : List Act) (t : Services W)
      → start sets host m registry w ≡ ok s₀
      → Run sets host m registry s₀ acts t
      → (all_handed acts ≡ all_ended acts ++ in_hand t.runner)
        × ((p : Task → Bool)
            → count p (all_taken acts)
              ≡ count p (all_handed acts) + count p (all_lost acts) + count p (offers t.services))
  unfolding start IsConserved
  start-conserved w s₀ acts t begun run =
      let (idle, silent) = started-IsFresh (serve host m w) s₀ begun in
      let (one, all) = Run-IsConserved s₀ acts t run in
      (
        sym (ap (λ ts. ts ++ all_handed acts) idle) ∙ one,
        λ p. omega (arith, all p, ap (count p) silent),
      )

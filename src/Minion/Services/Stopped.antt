-- ===== src/Minion/Services/Stopped.antt =====
-- What the services do once `Stop` has closed the channel of the tasks.
use gru.Prelude.{◌+◌, Bool, true, List, [], ◌∷◌, ◌++◌, ◌≡◌, refl, sym, ◌∙◌, ap, arith, append-nil}
use gru.Task.{Task}
use gru.Classifier.{Registry}
use gru.Graph.Sets.{MapSet}
use gru.Minion.{Host}
use gru.Minion.Keys.{Minion}
use gru.Minion.Services.{
  Services, Act, Step, pick, tick, watch, receive, finish, outside, close_queue, close_done,
  see_done, Run, here, next,
}
use gru.Minion.Services.History.{all_taken, all_lost, all_handed, all_ended, in_hand, offers, count}
use gru.Minion.Services.Conserved.{IsConserved, Run-IsConserved}

module _ (sets : MapSet) {W : Type 0} (host : Host W) (m : Minion) (registry : Registry W) where
  -- The channel stays closed, and nothing was handed over.
  abbrev IsShut : List Act → Services W → Type 0
  IsShut acts s = (s.queue_closed ≡ true) × (all_handed acts ≡ [])

  Step-IsShut :
      (acts : List Act) (s : Services W) {act : Act} {t : Services W}
      → Step sets host m registry s act t
      → IsShut acts s
      → IsShut (act ∷ acts) t
  unfolding all_handed
  Step-IsShut acts s (pick before after x y w at e) h = h
  Step-IsShut acts s (tick before after time at) h = h
  Step-IsShut acts s (watch before after y ev w at e) h = h
  Step-IsShut acts s (receive before after x y t at e shown free) h = absurd (cc (h.0, shown))
  Step-IsShut acts s (finish t t₁ e w busy done) h = h
  Step-IsShut acts s (outside w) h = h
  Step-IsShut acts s (close_queue shown) h = absurd (cc (h.0, shown))
  Step-IsShut acts s (close_done shut shown) h = h
  Step-IsShut acts s (see_done shut) h = h

  Run-IsShut :
      (s₀ : Services W) (acts : List Act) (t : Services W)
      → s₀.queue_closed ≡ true
      → Run sets host m registry s₀ acts t
      → IsShut acts t
  unfolding all_handed
  Run-IsShut s₀ _ _ shut here = (shut, refl)
  Run-IsShut s₀ (act ∷ acts) t shut (next {t = s} run step) =
      Step-IsShut acts s step (Run-IsShut s₀ acts s shut run)

  -- No task is begun any more: the one in hand is the only one that may still end, and the tasks that
  -- are deleted from the queue are lost or stay with the goroutines that offer them.
  pub IsStranded : Services W → List Act → Services W → Type 0
  IsStranded s₀ acts t =
      (in_hand s₀.runner ≡ all_ended acts ++ in_hand t.runner)
      × ((p : Task → Bool)
          → count p (all_taken acts) + count p (offers s₀.services)
            ≡ count p (all_lost acts) + count p (offers t.services))

  -- After `Stop` has closed the channel of the tasks, whatever the services still do: no further
  -- task is begun, the one in hand alone may still end, and the tasks whose nodes are deleted from
  -- the queue are never processed: each stays with a goroutine that offers it, or was given up by the
  -- listener because it could not save it.
  pub Run-IsStranded :
      (s₀ : Services W) (acts : List Act) (t : Services W)
      → s₀.queue_closed ≡ true
      → Run sets host m registry s₀ acts t
      → IsStranded s₀ acts t
  unfolding IsConserved IsStranded
  Run-IsStranded s₀ acts t shut run =
      let (_, none_handed) = Run-IsShut s₀ acts t shut run in
      let (one, all) = Run-IsConserved sets host m registry s₀ acts t run in
      (
        sym (append-nil (in_hand s₀.runner))
            ∙ sym (ap (λ ts. in_hand s₀.runner ++ ts) none_handed)
            ∙ one,
        λ p. omega (arith, all p, ap (count p) none_handed),
      )

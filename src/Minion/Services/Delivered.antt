-- ===== src/Minion/Services/Delivered.antt =====
-- A task that a goroutine sends reaches the runner.
use gru.Prelude.{◌<◌, false, some, List, [], ◌∷◌, ◌++◌, ◌≡◌, refl, Option, ◌⊎◌, inl, inr}
use gru.Errors.{Error}
use gru.Task.{Task}
use gru.Classifier.{Registry}
use gru.Graph.Sets.{MapSet}
use gru.Minion.{Host}
use gru.Minion.Keys.{Minion}
use gru.Minion.Process.{Fate, finished, aborted, process_task}
use gru.Minion.Runs.Contract.{IsSound}
use gru.Minion.Process.Contract.{IsSaved, process_task-IsSaved}
use gru.Minion.Services.{
  Service, Runner, receiving, processing, Services, Act, handed, ended, resume, receive, finish,
  Run, here, next,
}
use gru.Minion.Services.History.{all_handed}

runner-cases : (r : Runner) → (r ≡ receiving) ⊎ (t : Task) × (r ≡ processing t)
runner-cases receiving = inl refl
runner-cases (processing t) = inr (t, refl)

module _ (sets : MapSet) {W : Type 0} (host : Host W) (m : Minion) (registry : Registry W) where
  saved-finished :
      (p : Fate W)
      → IsSaved sets host m p
      → (t : Task) × (e : Option Error) × (w : W) × (p ≡ finished (t, e, w))
  unfolding IsSaved
  saved-finished (finished (t, e, w)) saved = (t, e, w, refl)
  saved-finished aborted bad = absurd bad

  -- The task was handed over, alone, and its sender went on.
  pub IsDelivered : Services W → List Service → Task → Type 0
  IsDelivered s xs t =
      (acts : List Act) × (u : Services W) × Run sets host m registry s acts u
      × (all_handed acts ≡ t ∷ [])
      × (u.services ≡ xs)
      × (u.runner ≡ processing t)

  -- On a minion with a worker, where no module adds a resource that dereferences nil in its own
  -- methods, and whose channel of tasks is open, the services can always move on to a
  -- state in which a task that a goroutine offers, whichever it is, has been handed to the runner,
  -- with no other task handed over before it.
  pub offer-IsDelivered :
      (s : Services W) (before after : List Service) (x y : Service) (t : Task)
      → IsSound host
      → 0 < m.concurrency
      → s.queue_closed ≡ false
      → s.services ≡ before ++ x ∷ after
      → resume x ≡ some (t, y)
      → IsDelivered s (before ++ y ∷ after) t
  unfolding IsDelivered all_handed
  offer-IsDelivered s before after x y t sound busy shown at e = elim (runner-cases s.runner) [
    | inl free ↦
        (handed t ∷ [], _, next here (receive before after x y t at e shown free), refl, refl, refl)
    | inr (t₀, has) ↦
        let (t₁, r, w, done) =
          saved-finished (process_task sets host m t₀ s.world)
            (process_task-IsSaved sets host m sound busy t₀ s.world).1 in
        (
          handed t ∷ ended t₀ ∷ [],
          _,
          next (next here (finish t₀ t₁ r w has done)) (receive before after x y t at e shown refl),
          refl,
          refl,
          refl,
        )
  ]

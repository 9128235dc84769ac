-- ===== src/Minion/Queue/Runner.antt =====
-- The turns of `TaskRunner`, and the events of `TaskListener`.
use gru.Prelude.{
  ◌<◌, Bool, true, false, Option, none, some, List, [], ◌∷◌, ◌≡◌, refl, sym, subst, if◌then◌else◌,
  ◌↔◌, arith,
}
use gru.Errors.{Error, ok, panic}
use gru.Task.{Task, task_state_queued}
use gru.Minion.{Host, Event}
use gru.Minion.Keys.{Minion, save_task_result}
use gru.Graph.Sets.{MapSet}
use gru.Minion.Process.{Fate, finished, aborted, process_task}
use gru.Minion.Runs.Contract.{IsSound}
use gru.Minion.Process.Contract.{IsSaved, process_task-IsSaved}
use gru.Minion.Queue.{
  survived, Turn, done, received, run_turn, task_runner, listen, forwarded, accepted,
}

-- Something was received from the channel after it was closed.
pub has_nil : List Turn → Bool
has_nil [] = false
has_nil (done ∷ ss) = has_nil ss
has_nil (received none ∷ ss) = true
has_nil (received (some t) ∷ ss) = has_nil ss

module _ {W : Type 0} (host : Host W) (m : Minion) where
  survived-ok :
      (sets : MapSet) (p : Fate W) → IsSaved sets host m p → (w : W) × (survived host m p ≡ ok w)
  unfolding survived IsSaved
  survived-ok sets (finished (t, e, w)) saved = (w, refl)
  survived-ok sets aborted bad = absurd bad

  -- On a minion with a worker, where no module adds a resource that dereferences nil in its own
  -- methods, the task runner panics exactly when it receives from the closed
  -- channel, whatever tasks it processed and whatever shutdown signals it saw before: these do not
  -- end it.
  pub task_runner-panic :
      (sets : MapSet) (ss : List Turn) (w : W)
      → IsSound host
      → 0 < m.concurrency
      → (task_runner host m sets ss w ≡ panic) ↔ (has_nil ss ≡ true)
  unfolding task_runner run_turn has_nil
  task_runner-panic sets [] w sound busy = ground arith
  task_runner-panic sets (done ∷ ss) w sound busy = task_runner-panic sets ss w sound busy
  task_runner-panic sets (received none ∷ ss) w sound busy = ground arith
  task_runner-panic sets (received (some t) ∷ ss) w sound busy =
      let (w₁, alive) =
        survived-ok sets (process_task sets host m t w)
          (process_task-IsSaved sets host m sound busy t w).1 in
      rw (alive, task_runner, run_turn) (task_runner-panic sets ss w₁ sound busy)

  forwarded-some :
      (t s : Task) (p : Option Error × W)
      → (forwarded host m t p).0 ≡ some s
      → (s ≡ t) × (p ≡ (none, (forwarded host m t p).1))
  unfolding forwarded
  forwarded-some t s (some e, w) h = absurd (cc h)
  forwarded-some t s (none, w) h = (ground (arith, h), refl)

  -- The task is queued, and the last act was to save it.
  pub IsQueued : Task → W → Type 0
  IsQueued t w₁ =
      (t.state ≡ task_state_queued) × ((v : W) × (save_task_result host m t v ≡ (none, w₁)))

  accepted-IsQueued :
      (o : Option Task) (w : W) (t : Task)
      → (accepted host m o w).0 ≡ some t
      → IsQueued t (accepted host m o w).1
  unfolding accepted IsQueued
  accepted-IsQueued none w t h = absurd (cc h)
  accepted-IsQueued (some s) w t h =
      let queued : Task = record s { state = task_state_queued; time_received = host.now w } in
      let (same, saved) = forwarded-some queued t (save_task_result host m queued w) h in
      subst (λ x. IsQueued x (accepted host m (some s) w).1) (sym same) (refl, (w, saved))

  -- A task that the listener sends is queued, and the listener's last act was to save it as such.
  pub listen-IsQueued :
      (ev : Event) (w : W) (t : Task)
      → (listen host m ev w).0 ≡ some t
      → IsQueued t (listen host m ev w).1
  unfolding listen
  listen-IsQueued ev w t =
      elim (host.equal_fold (host.to_lower ev.action) "delete")
        as (λ b.
          let out =
            if b
            then (none, w)
            else accepted host m (host.unmarshal_task ev.node.value)
                (host.kapi_delete ev.node.key w) in
          out.0 ≡ some t → IsQueued t out.1) [
            | true ↦ λ h. absurd (cc h)
            | false ↦
                accepted-IsQueued (host.unmarshal_task ev.node.value)
                  (host.kapi_delete ev.node.key w) t
          ]

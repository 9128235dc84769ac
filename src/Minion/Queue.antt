-- ===== src/Minion/Queue.antt =====
-- The services of a minion: `checkQueue`, `TaskListener`, `TaskRunner`, `classify` and the turn of
-- `periodicRunner`.  The unbuffered channel is the list of the tasks sent over it.
use gru.Prelude.{
  ℕ, String, Bool, true, false, Option, none, some, List, [], ◌∷◌, ◌==◌, if◌then◌else◌,
}
use gru.Errors.{Error, etcd, Result, ok, err, panic}
use gru.Task.{Task, task_state_queued}
use gru.Minion.{Host, Leaf, Directory, Reply, found, failed, Event}
use gru.Classifier.{Classifier, Registry, get}
use gru.Resource.Collection.{keys}
use gru.Minion.Keys.{Minion, set_classifier, set_lastseen, save_task_result}
use gru.Graph.Sets.{MapSet}
use gru.Minion.Process.{Fate, finished, aborted, process_task}
pub mod Contract
pub mod Runner

-- etcdclient.ErrorCodeKeyNotFound
abbrev pub error_code_key_not_found : ℕ
error_code_key_not_found = 100

-- !ok || eerr.Code == etcdclient.ErrorCodeKeyNotFound
unfoldable pub is_returned : Error → Bool
is_returned (etcd code) = code == error_code_key_not_found
is_returned _ = true

-- What `TaskRunner` selects: the shutdown, or what it takes from the channel, which is nil on the
-- channel that `Stop` has closed.
pub data Turn : Type 0 where
  done : Turn
  received : Option Task → Turn

module _ {W : Type 0} (host : Host W) (m : Minion) where
  -- The loop over the backlog: the tasks it sends.
  unfoldable pub drain : List Leaf → W → List Task × W
  drain [] w = ([], w)
  drain (n ∷ ns) w =
      let (sent, w₁) = drain ns (host.kapi_delete n.key w) in
      elim (host.unmarshal_task n.value) [ none ↦ (sent, w₁) | some t ↦ (t ∷ sent, w₁) ]

  -- What `checkQueue` makes of the reply: the response is nil on every error.
  unfoldable pub backlog : Reply × W → Result (List Task) × W
  unfolding drain is_returned
  backlog (failed e, w) = if is_returned e then (err e, w) else (panic, w)
  backlog (found d, w) = let (sent, w₁) = drain d.nodes w in (ok sent, w₁)

  unfoldable pub check_queue : W → Result (List Task) × W
  unfolding backlog
  check_queue w = backlog (host.kapi_get_sorted m.queue_dir w)

  -- A task is sent if it was saved.
  unfoldable pub forwarded : Task → Option Error × W → Option Task × W
  forwarded t (some e, w) = (none, w)
  forwarded t (none, w) = (some t, w)

  -- What follows the deletion of the node.
  unfoldable pub accepted : Option Task → W → Option Task × W
  unfolding forwarded
  accepted none w = (none, w)
  accepted (some t) w =
      let t₁ = record t { state = task_state_queued; time_received = host.now w } in
      forwarded t₁ (save_task_result host m t₁ w)

  -- One event of the watcher: the task that is sent.
  unfoldable pub listen : Event → W → Option Task × W
  unfolding accepted
  listen ev w =
      if host.equal_fold (host.to_lower ev.action) "delete"
      then (none, w)
      else accepted (host.unmarshal_task ev.node.value) (host.kapi_delete ev.node.key w)

  -- A panic in `processTask` is one of the runner.
  unfoldable pub survived : Fate W → Result W
  survived (finished (t, e, w)) = ok w
  survived aborted = panic

  -- `break` leaves the select, and the loop goes on.
  unfoldable pub run_turn : MapSet → Turn → W → Result W
  unfolding survived
  run_turn sets done w = ok w
  run_turn sets (received none) w = panic
  run_turn sets (received (some t)) w = survived (process_task sets host m t w)

  unfoldable pub task_runner : MapSet → List Turn → W → Result W
  unfolding run_turn
  task_runner sets [] w = ok w
  task_runner sets (s ∷ ss) w = elim (run_turn sets s w) [
    | ok w₁ ↦ task_runner sets ss w₁
    | err e ↦ err e
    | panic ↦ panic
  ]

  -- A classifier whose provider failed is left out.
  unfoldable pub reclassify : Classifier × Option Error × W → W
  unfolding set_classifier
  reclassify (c, some e, w) = w
  reclassify (c, none, w) = (set_classifier host m c w).1

  -- The loop over the keys of the registry.
  unfoldable pub classify_keys : Registry W → List String → W → Option W
  unfolding get reclassify
  classify_keys registry [] w = some w
  classify_keys registry (key ∷ ks) w = elim (get registry key w) [
    | none ↦ none
    | some r ↦ classify_keys registry ks (reclassify r)
  ]

  unfoldable pub classify : Registry W → W → Option W
  unfolding classify_keys
  classify registry w = classify_keys registry (keys registry) w

  -- What follows `checkQueue` in a tick, at the time the tick carries.
  unfoldable pub stamp : ℕ → Result (List Task) × W → Result (List Task × W)
  unfolding set_lastseen
  stamp time (ok ts, w) = ok (ts, (set_lastseen host m time w).1)
  stamp time (err e, w) = ok ([], (set_lastseen host m time w).1)
  stamp time (panic, w) = panic

  -- One tick of the ticker: the tasks sent, unless a classifier or the queue's check panics.
  unfoldable pub periodic_turn : Registry W → ℕ → W → Result (List Task × W)
  unfolding classify check_queue stamp
  periodic_turn registry time w = elim (classify registry w) [
    | none ↦ panic
    | some w₁ ↦ stamp time (check_queue w₁)
  ]

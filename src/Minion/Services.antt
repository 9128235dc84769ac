-- ===== src/Minion/Services.antt =====
-- `Serve` and `Stop`: the goroutines of a minion side by side, over the channel of the tasks.
--
-- A move of a goroutine is one call on etcd, one classifier, one event of the watcher or one task.
-- On the unbuffered channel a sender and the runner move together.  An error of the watcher only
-- delays its next event.  A panic in any goroutine ends the program.
use gru.Prelude.{
  ℕ, String, Bool, true, false, Option, none, some, List, [], ◌∷◌, ◌++◌, ◌≡◌, if◌then◌else◌,
}
use gru.Errors.{Error, Result, ok, err}
use gru.Task.{Task, task_state_queued}
use gru.Classifier.{Classifier, Registry, get}
use gru.Resource.Collection.{keys}
use gru.Graph.Sets.{MapSet}
use gru.Minion.{Host, Leaf, Reply, found, failed, Event}
use gru.Minion.Keys.{Minion, serve, set_lastseen, save_task_result}
use gru.Minion.Process.{finished, aborted, process_task}
use gru.Minion.Queue.{is_returned, listen, reclassify}
pub mod History
pub mod Balanced
pub mod Conserved
pub mod Stopped
pub mod Crashes
pub mod Delivered

-- Where a goroutine other than the runner is.  `classify` and `checkQueue` are called by `Serve`,
-- or by the periodic runner at the time of a tick.
pub data Service : Type 0 where
  -- The select of `periodicRunner`, and watcher.Next in `TaskListener`.
  selecting watching : Service
  -- `classify`, with the keys that are left.
  classifying : Option ℕ → List String → Service
  -- `checkQueue` before its Get, in its loop and in a send.
  reading : Option ℕ → Service
  draining : Option ℕ → List Leaf → Service
  sending : Option ℕ → Task → List Leaf → Service
  -- `SetLastseen` at the end of a tick.
  stamping : ℕ → Service
  -- The send of `TaskListener`.
  forwarding : Task → Service
  returned : Service

-- The select of `TaskRunner`, and its call of `processTask`.
pub data Runner : Type 0 where
  receiving : Runner
  processing : Task → Runner

-- A move, and where it leads.
pub data Move (W : Type 0) : Type 0 where
  goes : Service → W → Move W
  blocked : Move W
  panics : Move W

pub record Services (W : Type 0) : Type 0 where
  pub world : W
  pub services : List Service
  pub runner : Runner
  pub queue_closed : Bool
  pub done_closed : Bool

-- What is seen of a move: the tasks whose nodes it deletes from the queue with those of them that it
-- could not save, the task that it hands to the runner, or the task that it has processed.
pub data Act : Type 0 where
  took : List Task → List Task → Act
  handed : Task → Act
  ended : Task → Act

-- Where `checkQueue` returns to.
unfoldable pub leave : Option ℕ → Service
leave none = returned
leave (some time) = stamping time

-- Where a sender goes on once its task was received.
unfoldable pub resume : Service → Option (Task × Service)
resume (sending c t ns) = some (t, draining c ns)
resume (forwarding t) = some (t, watching)
resume _ = none

-- What the moves take from the queue, read off the nodes that they delete.
module _ {W : Type 0} (host : Host W) (m : Minion) where
  -- The task of the node that `checkQueue` deletes next, if it is one.
  abbrev pub deleted_by : Service → List Task
  deleted_by (draining c (n ∷ ns)) = elim (host.unmarshal_task n.value) [
    | none ↦ []
    | some t ↦ t ∷ []
  ]
  deleted_by _ = []

  -- The task as `TaskListener` marks it.
  abbrev pub marked : Task → W → Task
  marked t w = record t { state = task_state_queued; time_received = host.now w }

  abbrev pub marked_all : Option Task → W → List Task
  marked_all none w = []
  marked_all (some t) w = marked t w ∷ []

  -- The task that cannot be saved.
  abbrev pub unsaved : Option Task → W → List Task
  unsaved none w = []
  unsaved (some t) w = elim (save_task_result host m (marked t w) w).0 [
    | none ↦ []
    | some e ↦ marked t w ∷ []
  ]

  -- The node of the event is deleted, unless the event is a deletion itself.
  abbrev pub is_deletion : Event → Bool
  is_deletion ev = host.equal_fold (host.to_lower ev.action) "delete"

  abbrev pub deleted_at : Event → W → List Task
  deleted_at ev w =
      if is_deletion ev
      then []
      else marked_all (host.unmarshal_task ev.node.value) (host.kapi_delete ev.node.key w)

  abbrev pub lost_at : Event → W → List Task
  lost_at ev w =
      if is_deletion ev
      then []
      else unsaved (host.unmarshal_task ev.node.value) (host.kapi_delete ev.node.key w)

module _ (sets : MapSet) {W : Type 0} (host : Host W) (m : Minion) (registry : Registry W) where
  unfoldable pub read : Option ℕ → Reply × W → Move W
  unfolding leave is_returned
  read c (found d, w) = goes (draining c d.nodes) w
  read c (failed e, w) = if is_returned e then goes (leave c) w else panics

  unfoldable pub take_node : Option ℕ → Option Task → List Leaf → W → Move W
  take_node c none ns w = goes (draining c ns) w
  take_node c (some t) ns w = goes (sending c t ns) w

  -- A provider that panics ends the program.
  unfoldable pub classified :
      Option ℕ → List String → Option (Classifier × Option Error × W) → Move W
  unfolding reclassify
  classified c ks none = panics
  classified c ks (some r) = goes (classifying c ks) (reclassify host m r)

  -- The next move of a goroutine that waits for nothing.
  unfoldable pub advance : Service → W → Move W
  unfolding read take_node leave classified get
  advance (classifying c (k ∷ ks)) w = classified c ks (get registry k w)
  advance (classifying none []) w = goes returned w
  advance (classifying (some time) []) w = goes (reading (some time)) w
  advance (reading c) w = read c (host.kapi_get_sorted m.queue_dir w)
  advance (draining c []) w = goes (leave c) w
  advance (draining c (n ∷ ns)) w =
      take_node c (host.unmarshal_task n.value) ns (host.kapi_delete n.key w)
  advance (stamping time) w = goes selecting (set_lastseen host m time w).1
  advance _ w = blocked

  -- What `TaskListener` does with an event.
  unfoldable pub hear : Option Task × W → Move W
  hear (none, w) = goes watching w
  hear (some t, w) = goes (forwarding t) w

  unfoldable pub started : Option Error × W → Result (Services W)
  started (some e, w) = err e
  started (none, w) = ok (record {
    world = w;
    services = classifying none (keys registry) ∷ reading none ∷ selecting ∷ watching ∷ [];
    runner = receiving;
    queue_closed = false;
    done_closed = false;
  })

  -- The whole of `Serve`: the goroutines that it starts, where it returns no error.
  unfoldable pub start : W → Result (Services W)
  unfolding started serve
  start w = started (serve host m w)

  pub data Step (s : Services W) : Act → Services W → Type 0 where
    -- A goroutine moves on its own.
    pick :
        (before after : List Service) (x y : Service) (w : W)
        → s.services ≡ before ++ x ∷ after
        → advance x s.world ≡ goes y w
        → Step s
            (took (deleted_by host m x) [])
            (record s { world = w; services = before ++ y ∷ after })
    -- The ticker sends the time.
    tick :
        (before after : List Service) (time : ℕ)
        → s.services ≡ before ++ selecting ∷ after
        → Step s
            (took [] [])
            (record s { services = before ++ classifying (some time) (keys registry) ∷ after })
    -- The watcher reports an event.
    watch :
        (before after : List Service) (y : Service) (ev : Event) (w : W)
        → s.services ≡ before ++ watching ∷ after
        → hear (listen host m ev s.world) ≡ goes y w
        → Step s
            (took (deleted_at host m ev s.world) (lost_at host m ev s.world))
            (record s { world = w; services = before ++ y ∷ after })
    -- The runner receives what a goroutine sends.
    receive :
        (before after : List Service) (x y : Service) (t : Task)
        → s.services ≡ before ++ x ∷ after
        → resume x ≡ some (t, y)
        → s.queue_closed ≡ false
        → s.runner ≡ receiving
        → Step s (handed t) (record s { services = before ++ y ∷ after; runner = processing t })
    finish :
        (t t₁ : Task) (e : Option Error) (w : W)
        → s.runner ≡ processing t
        → process_task sets host m t s.world ≡ finished (t₁, e, w)
        → Step s (ended t) (record s { world = w; runner = receiving })
    -- Something else writes to etcd, or to the disk.
    outside : (w : W) → Step s (took [] []) (record s { world = w })
    -- `Stop` closes the two channels.
    close_queue : s.queue_closed ≡ false → Step s (took [] []) (record s { queue_closed = true })
    close_done :
        s.queue_closed ≡ true
        → s.done_closed ≡ false
        → Step s (took [] []) (record s { done_closed = true })
    -- `break` leaves the select, and the loop selects again.
    see_done : s.done_closed ≡ true → Step s (took [] []) s

  -- The moves at which the program ends.
  pub data Crash (s : Services W) : Type 0 where
    -- The response of `checkQueue` is nil, or a classifier's provider panics.
    gives_up :
        (before after : List Service) (x : Service)
        → s.services ≡ before ++ x ∷ after
        → advance x s.world ≡ panics
        → Crash s
    send_on_closed :
        (before after : List Service) (x y : Service) (t : Task)
        → s.services ≡ before ++ x ∷ after
        → resume x ≡ some (t, y)
        → s.queue_closed ≡ true
        → Crash s
    -- What is received from the closed channel is nil.
    nil_task : s.queue_closed ≡ true → s.runner ≡ receiving → Crash s
    catalog_panic :
        (t : Task)
        → s.runner ≡ processing t
        → process_task sets host m t s.world ≡ aborted
        → Crash s

  -- The states that are reached, with the moves that led there, the last one first.
  pub data Run (s : Services W) : List Act → Services W → Type 0 where
    here : Run s [] s
    next :
        {acts : List Act} {act : Act} {t u : Services W}
        → Run s acts t
        → Step t act u
        → Run s (act ∷ acts) u

-- ===== src/Catalog/Run.antt =====
-- `Run` of catalog/catalog.go: the main goroutine goes through the sorted nodes, and hands
-- concurrent resources with no reverse dependencies to the workers.
--
-- One step is what the main goroutine does for one node, or the whole `process` of one resource by
-- a worker; the steps come in any order. `queue` holds the resources that were sent and are not
-- yet processed: those in the channel, which has room for 1024, and one for each worker.
pub mod Invariant
pub mod Safety
pub mod Progress
pub mod Schedule
use gru.Prelude.{
  ℕ, suc, ◌+◌, ◌<◌, ◌≡◌, String, Bool, true, false, ◌&&◌, not, Option, none, some, List, [], ◌∷◌,
  ◌++◌, length, lookup, ◌==◌, if◌then◌else◌,
}
use gru.Graph.Heap.{Heap, Graph, name_of, edges_of}
use gru.Resource.{Resource}
use gru.Catalog.{Config, Catalog}
use gru.Catalog.Execute.{Shared, process}

pub record Running (W : Type 0) : Type 0 where
  pub todo : List ℕ
  pub queue : List (Resource W)
  pub shared : Shared W
  pub panicked : Bool

-- The three cases of the switch; `fault` is a dereference of nil in a condition.
pub data Lane : Type 0 where
  isolated no_dependents synchronous fault : Lane

-- len(c.reversed.Nodes[id].Edges) == 0
abbrev pub has_no_dependents : {W : Type 0} → Heap → Catalog W → String → Option Bool
has_no_dependents h c id = elim (lookup id c.reversed.nodes) [
  | none ↦ none
  | some q ↦ some (length (edges_of h q) == 0)
]

module _ {W : Type 0} (h : Heap) (c : Catalog W) where
  unfoldable pub lane : Resource W → Lane
  lane r = if not r.is_concurrent then synchronous else elim (has_no_dependents h c r.id) [
    | none ↦ fault
    | some true ↦ if length r.dependencies == 0 then isolated else no_dependents
    | some false ↦ synchronous
  ]

  -- process(r) in the main goroutine or in a worker.
  unfoldable pub process_in : Resource W → Running W → Running W
  process_in r s = elim (process c.config r s.shared) [
    | none ↦ record s { panicked = true }
    | some shared ↦ record s { shared = shared }
  ]

  -- The body of the loop over `c.sorted`.
  unfoldable pub dispatch : ℕ → List ℕ → Running W → Running W
  unfolding lane process_in
  dispatch p rest s =
      let s₁ = record s { todo = rest } in
      elim (lookup (name_of h p) c.collection) [
        | none ↦ record s₁ { panicked = true }
        | some r ↦ elim (lane r) [
          | isolated ↦ record s₁ { queue = s.queue ++ r ∷ [] }
          | no_dependents ↦ record s₁ { queue = s.queue ++ r ∷ [] }
          | synchronous ↦ process_in r s₁
          | fault ↦ record s₁ { panicked = true }
        ]
      ]

  abbrev pub start : Shared W → Running W
  start shared = record { todo = c.sorted; queue = []; shared = shared; panicked = false }

  -- `Run` returns when the main goroutine has closed the channel and every worker has found it
  -- empty. Where there are no workers it returns at once, whatever is in the channel.
  pub record IsDone (s : Running W) : Type 0 where
    pub all_sent : s.todo ≡ []
    pub all_processed : 0 < c.config.concurrency → s.queue ≡ []

  pub data Step (s : Running W) : Running W → Type 0 where
    main :
        (p : ℕ) (rest : List ℕ)
        → s.panicked ≡ false
        → s.todo ≡ p ∷ rest
        → length s.queue < 1024 + c.config.concurrency
        → Step s (dispatch p rest s)
    worker :
        (before after : List (Resource W)) (r : Resource W)
        → s.panicked ≡ false
        → s.queue ≡ before ++ r ∷ after
        → 0 < c.config.concurrency
        → Step s (process_in r (record s { queue = before ++ after }))

  pub data Reach (s : Running W) : Running W → Type 0 where
    here : Reach s s
    next : {t u : Running W} → Reach s t → Step t u → Reach s u

-- ===== src/Catalog/Run/Progress.antt =====
-- `Run` ends: every step leaves less to do, and with a worker there is always a next step.
use gru.Prelude.{
  ℕ, ◌+◌, ◌*◌, ◌<◌, ◌≡◌, refl, false, List, [], ◌∷◌, ◌++◌, arith, inl, inr, ◌⊎◌, ap, length,
  length-append, lookup, Option-cases,
}
use gru.Graph.Heap.{Heap, name_of}
use gru.Resource.{Resource}
use gru.Catalog.{Catalog}
use gru.Catalog.Run.{Running, process_in, dispatch, Step, main, worker, IsDone}

pub List-cases {ℓ} :
    {A : Type ℓ} (xs : List A) → (xs ≡ []) ⊎ ((x : A) × (rest : List A) × (xs ≡ x ∷ rest))
List-cases [] = inl refl
List-cases (x ∷ xs) = inr (x, xs, refl)

module _ {W : Type 0} (h : Heap) (c : Catalog W) where
  -- A node to come may be sent and then processed.
  abbrev pub work_left : Running W → ℕ
  work_left s = 2 * length s.todo + length s.queue

  length-process_in :
      (r : Resource W) (s : Running W)
      → ((process_in h c r s).todo ≡ s.todo) × ((process_in h c r s).queue ≡ s.queue)
  unfolding process_in
  length-process_in r s = ground arith

  dispatch-lt :
      (p : ℕ) (rest : List ℕ) (s : Running W)
      → s.todo ≡ p ∷ rest
      → work_left (dispatch h c p rest s) < work_left s
  unfolding dispatch
  dispatch-lt p rest s e = elim (Option-cases (lookup (name_of h p) c.collection)) [
    | inl gone ↦ ground (arith, gone, ap length e)
    | inr (r, at) ↦
        let (same_todo, same_queue) = length-process_in r (record s { todo = rest }) in
        ground (
          arith,
          at,
          ap length e,
          length-append s.queue (r ∷ []),
          ap length same_todo,
          ap length same_queue,
        )
  ]

  -- Each step of `Run` leaves less work.
  pub Step-lt : {s t : Running W} → Step h c s t → work_left t < work_left s
  Step-lt {s} (main p rest alive e room) = dispatch-lt p rest s e
  Step-lt {s} (worker before after r alive e some_worker) =
      let (same_todo, same_queue) = length-process_in r (record s { queue = before ++ after }) in
      omega (
        arith,
        ap length e,
        ap length same_todo,
        ap length same_queue,
        length-append before (r ∷ after),
        length-append before after,
      )

  -- With at least one worker, a run that has not ended or panicked has a next step.
  pub run_progress :
      (s : Running W)
      → 0 < c.config.concurrency
      → s.panicked ≡ false
      → IsDone h c s ⊎ ((t : Running W) × Step h c s t)
  run_progress s workers alive = elim (List-cases s.queue) [
    | inr (r, rs, e) ↦ inr (_, worker [] rs r alive e workers)
    | inl empty ↦ elim (List-cases s.todo) [
      | inl none_left ↦ inl (record { all_sent = none_left; all_processed = λ _. empty })
      | inr (p, ps, e) ↦ inr (_, main p ps alive e (omega (arith, ap length empty)))
    ]
  ]

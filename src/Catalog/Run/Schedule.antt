-- ===== src/Catalog/Run/Schedule.antt =====
-- `Run` under a scheduler that chooses among the steps that are open; the choice at each point is
-- a number.  Two steps for each node are enough, so `run` takes as many rounds.
use gru.Prelude.{
  All, All-append, ℕ, zero, suc, ◌+◌, ◌*◌, ◌<◌, ◌≤◌, ◌≡◌, refl, Bool, true, false, List, [], ◌∷◌,
  ◌++◌, arith, inl, inr, ap, length, length-append, subst, if◌then◌else◌, ltb, Bool-cases,
  append_assoc,
}
use gru.Graph.Heap.{Heap}
use gru.Resource.{Resource}
use gru.Catalog.{Catalog}
use gru.Catalog.Execute.{Shared}
use gru.Catalog.Run.{
  Running, process_in, dispatch, Step, main, worker, Reach, here, next, IsDone, start,
}
use gru.Catalog.Run.Progress.{work_left, Step-lt, List-cases}

-- The item at a position, or the last one.
unfoldable pub chosen {ℓ} : {A : Type ℓ} → ℕ → A → List A → A
chosen zero a bs = a
chosen (suc n) a [] = a
chosen (suc n) a (b ∷ bs) = chosen n b bs

All-chosen {ℓ κ} :
    {A : Type ℓ} (P : A → Type κ) (n : ℕ) (a : A) (bs : List A) → All P (a ∷ bs) → P (chosen n a bs)
unfolding chosen
All-chosen P zero a bs h = h.0
All-chosen P (suc n) a [] h = h.0
All-chosen P (suc n) a (b ∷ bs) h = All-chosen P n b bs h.1

nil_of_length {ℓ} : {A : Type ℓ} (xs : List A) → length xs ≡ 0 → xs ≡ []
nil_of_length [] e = refl
nil_of_length (x ∷ xs) e = absurd (omega (arith, e))

module _ {W : Type 0} (h : Heap) (c : Catalog W) where
  unfoldable pub main_turns : List ℕ → Running W → List (Running W)
  main_turns [] s = []
  main_turns (p ∷ rest) s =
      if ltb (length s.queue) (1024 + c.config.concurrency) then dispatch h c p rest s ∷ [] else []

  -- A worker may take up any resource of `after`; those of `before` are passed over.
  unfoldable pub worker_turns : List (Resource W) → List (Resource W) → Running W → List (Running W)
  worker_turns before [] s = []
  worker_turns before (r ∷ after) s =
      process_in h c r (record s { queue = before ++ after })
      ∷ worker_turns (before ++ (r ∷ [])) after s

  unfoldable pub open_turns : Bool → Running W → List (Running W)
  unfolding main_turns worker_turns
  open_turns true s = []
  open_turns false s =
      main_turns s.todo s ++ (if ltb 0 c.config.concurrency then worker_turns [] s.queue s else [])

  -- The states that one step leads to; a panic ends the program.
  unfoldable pub turns : Running W → List (Running W)
  unfolding open_turns
  turns s = open_turns s.panicked s

  unfoldable pub run_loop : (ℕ → ℕ) → ℕ → Running W → Running W
  unfolding turns chosen
  run_loop choose zero s = s
  run_loop choose (suc fuel) s = elim (turns s) [
    | [] ↦ s
    | t ∷ ts ↦ run_loop choose fuel (chosen (choose fuel) t ts)
  ]

  unfoldable pub run : (ℕ → ℕ) → Shared W → Running W
  unfolding run_loop
  run choose shared = run_loop choose (2 * length c.sorted) (start h c shared)

  main_turns-Step :
      (todo : List ℕ) (s : Running W)
      → s.panicked ≡ false
      → s.todo ≡ todo
      → All (Step h c s) (main_turns todo s)
  unfolding main_turns
  main_turns-Step [] s alive e = tt
  main_turns-Step (p ∷ rest) s alive e =
      elim (Bool-cases (ltb (length s.queue) (1024 + c.config.concurrency))) [
        | inl room ↦ rw room (main p rest alive e (ground arith), tt)
        | inr full ↦ rw full tt
      ]

  worker_turns-Step :
      (before after : List (Resource W)) (s : Running W)
      → s.panicked ≡ false
      → 0 < c.config.concurrency
      → s.queue ≡ before ++ after
      → All (Step h c s) (worker_turns before after s)
  unfolding worker_turns
  worker_turns-Step before [] s alive busy e = tt
  worker_turns-Step before (r ∷ after) s alive busy e = (
    worker before after r alive e busy,
    worker_turns-Step (before ++ (r ∷ [])) after s alive busy
        (rw (append_assoc before (r ∷ []) after) e),
  )

  open_turns-Step : (b : Bool) (s : Running W) → s.panicked ≡ b → All (Step h c s) (open_turns b s)
  unfolding open_turns
  open_turns-Step true s dead = tt
  open_turns-Step false s alive =
      All-append (Step h c s) (main_turns s.todo s) _ (main_turns-Step s.todo s alive refl)
        (elim (Bool-cases (ltb 0 c.config.concurrency)) [
          | inl busy ↦ rw busy (worker_turns-Step [] s.queue s alive (ground arith) refl)
          | inr idle ↦ rw idle tt
        ])

  turns-Step : (s : Running W) → All (Step h c s) (turns s)
  unfolding turns
  turns-Step s = open_turns-Step s.panicked s refl

  -- Where a worker runs and nothing is open, nothing is left.
  open_turns-nil :
      (todo : List ℕ) (queue : List (Resource W)) (s : Running W)
      → 0 < c.config.concurrency
      → length s.queue ≡ length queue
      → main_turns todo s ++ (if ltb 0 c.config.concurrency then worker_turns [] queue s else [])
        ≡ []
      → (todo ≡ []) × (queue ≡ [])
  unfolding main_turns worker_turns
  open_turns-nil todo (r ∷ queue) s busy same e = absurd (
      ground (
        arith,
        ap length e,
        length-append (main_turns todo s)
            (process_in h c r (record s { queue = queue }) ∷ worker_turns (r ∷ []) queue s),
      ))
  open_turns-nil [] [] s busy same e = (refl, refl)
  open_turns-nil (p ∷ rest) [] s busy same e = absurd (ground (arith, e, same))

  turns-nil :
      (s : Running W) → 0 < c.config.concurrency → s.panicked ≡ false → turns s ≡ [] → IsDone h c s
  unfolding turns open_turns
  turns-nil s busy alive e =
      let open_now = subst (λ b. open_turns b s ≡ []) alive e in
      let (sent, processed) = open_turns-nil s.todo s.queue s busy refl open_now in
      record { all_sent = sent; all_processed = λ _. processed }

  pub run_loop-Reach :
      (choose : ℕ → ℕ) (fuel : ℕ) (s t : Running W)
      → Reach h c s t
      → Reach h c s (run_loop choose fuel t)
  unfolding run_loop
  run_loop-Reach choose zero s t r = r
  run_loop-Reach choose (suc fuel) s t r = elim (List-cases (turns t)) [
    | inl none_open ↦ rw (none_open, run_loop) r
    | inr (u, us, e) ↦
        rw (e, run_loop)
          (run_loop-Reach choose fuel s (chosen (choose fuel) u us) (
            next r (
              All-chosen (Step h c t) (choose fuel) u us
                (subst (All (Step h c t)) e (turns-Step t)))))
  ]

  run_loop-IsDone :
      (choose : ℕ → ℕ) (fuel : ℕ) (s t : Running W)
      → 0 < c.config.concurrency
      → ((u : Running W) → Reach h c s u → u.panicked ≡ false)
      → Reach h c s t
      → work_left h c t ≤ fuel
      → IsDone h c (run_loop choose fuel t)
  unfolding run_loop
  run_loop-IsDone choose zero s t busy alive r enough = record {
    all_sent = nil_of_length t.todo (omega (arith, enough));
    all_processed = λ _. nil_of_length t.queue (omega (arith, enough));
  }
  run_loop-IsDone choose (suc fuel) s t busy alive r enough = elim (List-cases (turns t)) [
    | inl none_open ↦ rw (none_open, run_loop) (turns-nil t busy (alive t r) none_open)
    | inr (u, us, e) ↦
        let step =
          All-chosen (Step h c t) (choose fuel) u us (subst (All (Step h c t)) e (turns-Step t)) in
        rw (e, run_loop)
          (run_loop-IsDone choose fuel s (chosen (choose fuel) u us) busy alive (next r step)
            (omega (arith, enough, Step-lt h c step)))
  ]

  -- With a worker, and where no step panics, every schedule brings `Run` to its end.
  pub run-IsDone :
      (choose : ℕ → ℕ) (shared : Shared W)
      → 0 < c.config.concurrency
      → ((t : Running W) → Reach h c (start h c shared) t → t.panicked ≡ false)
      → Reach h c (start h c shared) (run choose shared) × IsDone h c (run choose shared)
  unfolding run
  run-IsDone choose shared busy alive =
      let s = start h c shared in
      (
        run_loop-Reach choose (2 * length c.sorted) s s here,
        run_loop-IsDone choose (2 * length c.sorted) s s busy alive here (omega arith),
      )

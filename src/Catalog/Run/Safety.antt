-- ===== src/Catalog/Run/Safety.antt =====
-- Every step of `Run` keeps the invariant, so no resource meets a nil item, whatever the
-- interleaving.
use gru.Prelude.{
  ℕ, ◌<◌, String, ◌≡◌, refl, ◌∙◌, subst, true, false, ◌||◌, some, List, [], ◌∷◌, ◌++◌, arith,
  lookup, is_some, mem_str, eq_iff, inl, inr, ◌⊎◌, ap,
}
use gru.Graph.Heap.{Heap, name_of}
use gru.Resource.{Resource}
use gru.Resource.Collection.{ids}
use gru.Catalog.{Catalog}
use gru.Catalog.Execute.{Shared}
use gru.Catalog.Execute.Safety.{AllReturn}
use gru.Catalog.Run.{
  Running, has_no_dependents, process_in, dispatch, Step, main, worker, Reach, here, next, start,
  IsDone,
}
use gru.Catalog.Run.Invariant.{
  names, busy, IsReady, CanRun, IsQueue, Inv, IsQueue-Grows, IsQueue-append, IsQueue-split,
  process_in-ok, Lane-cases,
}

mem_str-ids-append :
    {W : Type 0} (d : String) (rs qs : List (Resource W))
    → mem_str d (ids (rs ++ qs)) ≡ (mem_str d (ids rs) || mem_str d (ids qs))
mem_str-ids-append d [] qs = refl
mem_str-ids-append d (r ∷ rs) qs = ground (arith, mem_str-ids-append d rs qs)

module _ {W : Type 0} (h : Heap) (c : Catalog W) (sound : AllReturn c.collection) where
  abbrev sent : Resource W → List ℕ → Running W → Running W
  sent r rest s = record s { todo = rest; queue = s.queue ++ r ∷ [] }

  dispatch_cases :
      (p : ℕ) (rest : List ℕ) (s : Running W) (r : Resource W)
      → lookup (name_of h p) c.collection ≡ some r
      → is_some (has_no_dependents h c r.id) ≡ true
      → ((dispatch h c p rest s ≡ sent r rest s) × (busy h c r.id ≡ false))
        ⊎ (dispatch h c p rest s ≡ process_in h c r (record s { todo = rest }))
  unfolding dispatch
  dispatch_cases p rest s r at found = elim (Lane-cases h c r found) [
    | inl (inl e, idle) ↦ inl (ground (arith, at, e), idle)
    | inl (inr e, idle) ↦ inl (ground (arith, at, e), idle)
    | inr e ↦ inr (ground (arith, at, e))
  ]

  main-Inv :
      (p : ℕ) (rest : List ℕ) (s : Running W)
      → s.todo ≡ p ∷ rest
      → Inv h c s
      → Inv h c (dispatch h c p rest s)
  main-Inv p rest s e inv =
      let now = subst (IsReady h c inv.seen) e inv.ready in
      let (r, at, named, found, before, used) = now.0 in
      let can : CanRun h c s.shared.status r =
        (sound (name_of h p) r at, λ d n. inv.busy_done d (before d n) (used d n)) in
      elim (dispatch_cases p rest s r at found) [
        | inl (sends, idle) ↦ rw sends (record {
          seen = name_of h p ∷ inv.seen;
          ready = now.1;
          cover = λ d. ground (arith, inv.cover d, ap (λ ps. mem_str d (names h ps)) e);
          alive = inv.alive;
          busy_done = λ d m b. ground (
            arith,
            inv.busy_done d,
            m,
            b,
            idle,
            named,
            eq_iff (name_of h p) d,
            ap (busy h c) {x = r.id} {y = d},
          );
          all_sent = λ d m. ground (
            arith,
            inv.all_sent d,
            m,
            named,
            eq_iff (name_of h p) d,
            eq_iff r.id d,
            mem_str-ids-append d s.queue (r ∷ []),
          );
          queued = IsQueue-append h c s.shared.status s.queue (r ∷ []) inv.queued ((idle, can), tt);
        })
        | inr runs ↦
            let (shared, done, items) = process_in-ok h c r (record s { todo = rest }) can in
            rw (runs ∙ done) (record {
              seen = name_of h p ∷ inv.seen;
              ready = now.1;
              cover = λ d. ground (arith, inv.cover d, ap (λ ps. mem_str d (names h ps)) e);
              alive = inv.alive;
              busy_done = λ d m b. ground (
                arith,
                inv.busy_done d,
                m,
                b,
                items d,
                named,
                eq_iff (name_of h p) d,
                eq_iff r.id d,
              );
              all_sent = λ d m.
                  ground (
                    arith,
                    inv.all_sent d,
                    m,
                    items d,
                    named,
                    eq_iff (name_of h p) d,
                    eq_iff r.id d,
                  );
              queued =
                  IsQueue-Grows h c s.shared.status shared.status s.queue
                    (λ d m. ground (arith, items d, m)) inv.queued;
            })
      ]

  worker-Inv :
      (before after : List (Resource W)) (r : Resource W) (s : Running W)
      → s.queue ≡ before ++ r ∷ after
      → Inv h c s
      → Inv h c (process_in h c r (record s { queue = before ++ after }))
  worker-Inv before after r s e inv =
      let (qb, qr) =
        IsQueue-split h c s.shared.status before (r ∷ after)
          (subst (IsQueue h c s.shared.status) e inv.queued) in
      let (shared, done, items) =
        process_in-ok h c r (record s { queue = before ++ after }) qr.0.1 in
      rw done (record {
        seen = inv.seen;
        ready = inv.ready;
        cover = inv.cover;
        alive = inv.alive;
        busy_done = λ d m b. ground (arith, inv.busy_done d m b, items d);
        all_sent = λ d m. ground (
          arith,
          inv.all_sent d m,
          items d,
          ap (λ q. mem_str d (ids q)) e,
          mem_str-ids-append d before (r ∷ after),
          mem_str-ids-append d before after,
        );
        queued =
            IsQueue-Grows h c s.shared.status shared.status (before ++ after)
              (λ d m. ground (arith, items d, m))
              (IsQueue-append h c s.shared.status before after qb qr.1);
      })

  pub Step-Inv : {s t : Running W} → Step h c s t → Inv h c s → Inv h c t
  Step-Inv {s} (main p rest alive e room) inv = main-Inv p rest s e inv
  Step-Inv {s} (worker before after r alive e some_worker) inv = worker-Inv before after r s e inv

  pub Reach-Inv : {s t : Running W} → Inv h c s → Reach h c s t → Inv h c t
  Reach-Inv inv here = inv
  Reach-Inv inv (next reach step) = Step-Inv step (Reach-Inv inv reach)

  start-Inv : (shared : Shared W) → IsReady h c [] c.sorted → Inv h c (start h c shared)
  start-Inv shared ready = record {
    seen = [];
    ready = ready;
    cover = λ d. refl;
    alive = refl;
    busy_done = λ d m b. cc;
    all_sent = λ d m. cc;
    queued = tt;
  }

  -- Where the methods of the resources return, and whatever the workers do, `Run` dereferences no nil item, node or resource.
  pub run_alive :
      (shared : Shared W)
      → IsReady h c [] c.sorted
      → (t : Running W) → Reach h c (start h c shared) t
      → t.panicked ≡ false
  run_alive shared ready t reach = (Reach-Inv (start-Inv shared ready) reach).alive

  -- With a worker, when `Run` returns, every resource of the catalog has an item.
  pub run_done :
      (shared : Shared W)
      → IsReady h c [] c.sorted
      → (t : Running W) → Reach h c (start h c shared) t
      → 0 < c.config.concurrency
      → IsDone h c t
      → (d : String) → mem_str d (names h c.sorted) ≡ true
      → is_some (lookup d t.shared.status) ≡ true
  run_done shared ready t reach some_worker done d m =
      let inv = Reach-Inv (start-Inv shared ready) reach in
      ground (
        arith,
        inv.cover d,
        inv.all_sent d,
        m,
        ap (λ ps. mem_str d (names h ps)) done.all_sent,
        ap (λ q. mem_str d (ids q)) (done.all_processed some_worker),
      )

-- ===== src/Minion/Process/Contract.antt =====
-- What `processTask` does with a task, with the task's catalog and with its entry in the log.
use gru.Prelude.{◌<◌, String, Option, none, some, List, ◌≡◌, refl, sym, subst, ◌⊎◌, inl, inr}
use gru.Errors.{Error, ok}
use gru.Task.{
  Task, task_state_skipped, task_state_unknown, task_state_success, task_state_processing,
}
use gru.Graph.Heap.{blank}
use gru.Graph.Sets.{MapSet}
use gru.Resource.{Resource}
use gru.Catalog.{Config, Line}
use gru.Catalog.Load.{Loaded, arrange}
use gru.Minion.{Host}
use gru.Minion.Keys.{Minion, save_task_result}
use gru.Minion.Sync.{sync, set_environment}
use gru.Minion.Runs.{CatalogRun, load_failed, ran, crashed, run_catalog}
use gru.Minion.Runs.Contract.{IsSound, IsRun, IsOutcome, catalog_of, run_catalog-IsOutcome}
use gru.Minion.Process.{
  Fate, finished, aborted, skip, report, run_task, with_environment, with_site, close_task,
  process_task, config_of,
}

-- The task's request is the same in both.
pub SameRequest : Task → Task → Type 0
SameRequest s t =
    (s.id ≡ t.id)
    × (s.command ≡ t.command)
    × (s.environment ≡ t.environment)
    × (s.dry_run ≡ t.dry_run)
    × (s.time_received ≡ t.time_received)

module _ (sets : MapSet) {W : Type 0} (host : Host W) (m : Minion) where
  -- A catalog was loaded and ran to its end, and the result is its log.
  pub record HasRun (config : Config) (result : String) : Type 0 where
    pub before : W
    pub loaded : W
    pub after : W
    pub resources : List (Option (Resource W))
    pub catalog : Loaded W
    pub log : List Line
    pub executed : host.do_file config before ≡ (resources, none, loaded)
    pub arranged : arrange sets (catalog_of sets host config resources) blank ≡ ok catalog
    pub ended : IsRun sets host config catalog loaded log after
    pub same : result ≡ host.log_text log

  -- The state and the error agree: success without an error, after a run of the catalog, else the
  -- state of a task that was not run, with the error.
  pub IsReport : Task → Task → Option Error → Type 0
  IsReport t t₁ none = (t₁.state ≡ task_state_success) × HasRun (config_of sets host m t) t₁.result
  IsReport t t₁ (some e) = (t₁.state ≡ task_state_skipped) ⊎ (t₁.state ≡ task_state_unknown)

  -- The task that comes out is the one that came in, with a report that fits the error.
  pub IsProcessed : Task → Fate W → Type 0
  unfolding SameRequest IsReport
  IsProcessed t (finished (t₁, e, w)) = SameRequest t t₁ × IsReport t t₁ e
  IsProcessed t aborted = ⊥

  -- And its last act was to save that task, stamped with the time.
  unfoldable pub IsSaved : Fate W → Type 0
  unfolding save_task_result
  IsSaved (finished (t, e, w)) =
      (v : W) × ((save_task_result host m t v).1 ≡ w) × (t.time_processed ≡ host.now v)
  IsSaved aborted = ⊥

  report-IsProcessed :
      (t s : Task) (w : W) (o : List (Option (Resource W)) × Option Error × W) (r : CatalogRun × W)
      → SameRequest t s
      → host.do_file (config_of sets host m t) w ≡ o
      → IsOutcome sets host (config_of sets host m t) o r
      → IsProcessed t (report sets host m s r)
  unfolding report IsProcessed SameRequest IsReport
  report-IsProcessed t s w (rs, some e, w₁) r same executed fails =
      subst (λ r. IsProcessed t (report sets host m s r)) (sym fails) (same, inr refl)
  report-IsProcessed t s w (rs, none, w₁) (load_failed e, w₂) same executed fails = (same, inr refl)
  report-IsProcessed t s w (rs, none, w₁) (ran log, w₂) same executed (l, loads, runs) = (
    same,
    (
      refl,
      record {
        before = w;
        loaded = w₁;
        after = w₂;
        resources = rs;
        catalog = l;
        log = log;
        executed = executed;
        arranged = loads;
        ended = runs;
        same = refl;
      },
    ),
  )
  report-IsProcessed t s w (rs, none, w₁) (crashed, w₂) same executed bad = bad

  module _ (sound : IsSound host) (busy : 0 < m.concurrency) where
    with_environment-IsProcessed :
        (t : Task) (p : Option Error × W) → IsProcessed t (with_environment sets host m t p)
    unfolding with_environment skip run_task IsProcessed SameRequest IsReport
    with_environment-IsProcessed t (some e, w) = ((refl, refl, refl, refl, refl), inl refl)
    with_environment-IsProcessed t (none, w) =
        let t₁ : Task = record t { state = task_state_processing } in
        let w₁ = (save_task_result host m t₁ w).1 in
        report-IsProcessed t t₁ w₁ (host.do_file (config_of sets host m t) w₁)
          (run_catalog sets host (config_of sets host m t) w₁) (refl, refl, refl, refl, refl) refl
          (run_catalog-IsOutcome sets host (config_of sets host m t) w₁
            (sound (config_of sets host m t) w₁) busy)

    with_site-IsProcessed :
        (t : Task) (p : Option Error × W) → IsProcessed t (with_site sets host m t p)
    unfolding with_site skip IsProcessed SameRequest IsReport
    with_site-IsProcessed t (some e, w) = ((refl, refl, refl, refl, refl), inl refl)
    with_site-IsProcessed t (none, w) =
        with_environment-IsProcessed t (set_environment host m t.environment w)

    close_task-IsSaved :
        (t : Task) (p : Fate W)
        → IsProcessed t p
        → IsProcessed t (close_task sets host m p) × IsSaved (close_task sets host m p)
    unfolding close_task IsProcessed SameRequest IsReport IsSaved
    close_task-IsSaved t (finished (t₁, none, w)) h = (h, (w, refl, refl))
    close_task-IsSaved t (finished (t₁, some e, w)) h = (h, (w, refl, refl))
    close_task-IsSaved t aborted h = absurd h

    pub process_task-IsSaved :
        (t : Task) (w : W)
        → IsProcessed t (process_task sets host m t w) × IsSaved (process_task sets host m t w)
    unfolding process_task
    process_task-IsSaved t w =
        close_task-IsSaved t (with_site sets host m t (sync host m w))
          (with_site-IsProcessed t (sync host m w))

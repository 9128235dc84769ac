-- ===== src/Minion/Process.antt =====
-- `processTask`.
use Prim.Native.String.{◌++◌ as str_append}
use gru.Prelude.{ℕ, String, Bool, Option, none, some}
use gru.Errors.{Error}
use gru.Task.{
  Task, task_state_skipped, task_state_processing, task_state_unknown, task_state_success,
}
use gru.Graph.Sets.{MapSet}
use gru.Catalog.{Config}
use gru.Minion.{Host}
use gru.Minion.Runs.{CatalogRun, load_failed, ran, crashed, run_catalog}
use gru.Minion.Keys.{Minion, save_task_result}
use gru.Minion.Sync.{sync, set_environment}
pub mod Contract

-- The task as it is at the end, the error that is returned, and the world.
abbrev pub Processed : Type 0 → Type 0
Processed W = Task × Option Error × W

-- A panic in the run of a catalog ends the program.
pub data Fate (W : Type 0) : Type 0 where
  finished : Processed W → Fate W
  aborted : Fate W

module _ (sets : MapSet) {W : Type 0} (host : Host W) (m : Minion) where
  -- fmt.Sprintf("...: %s\n", err)
  unfoldable pub skip : String → Task → Error → W → Fate W
  skip prefix t e w = finished (
    record t {
      state = task_state_skipped;
      result = str_append prefix (str_append (host.message e) "\n");
    },
    some e,
    w,
  )

  -- What follows the load and the run of the catalog.
  unfoldable pub report : Task → CatalogRun × W → Fate W
  report t (load_failed e, w) =
      finished (record t { state = task_state_unknown; result = host.message e }, some e, w)
  report t (ran log, w) =
      finished (record t { state = task_state_success; result = host.log_text log }, none, w)
  report t (crashed, w) = aborted

  abbrev pub config_of : Task → Config
  config_of t = record {
    mod_name = t.command;
    dry_run = t.dry_run;
    site_repo = m.git_repo.path;
    concurrency = m.concurrency;
  }

  -- From TaskStateProcessing on.
  unfoldable pub run_task : Task → W → Fate W
  unfolding report
  run_task t w =
      let t₁ = record t { state = task_state_processing } in
      let (saved, w₁) = save_task_result host m t₁ w in
      report t₁ (run_catalog sets host (config_of t) w₁)

  -- What follows `setEnvironment`.
  unfoldable pub with_environment : Task → Option Error × W → Fate W
  unfolding skip run_task
  with_environment t (some e, w) = skip "Unable to set environment: " t e w
  with_environment t (none, w) = run_task t w

  -- What follows `Sync`.
  unfoldable pub with_site : Task → Option Error × W → Fate W
  unfolding skip with_environment
  with_site t (some e, w) = skip "Unable to sync site directory: " t e w
  with_site t (none, w) = with_environment t (set_environment host m t.environment w)

  -- The deferred function: it stamps the task and saves it.
  unfoldable pub close_task : Fate W → Fate W
  close_task (finished (t, e, w)) =
      let t₁ = record t { time_processed = host.now w } in
      let (saved, w₁) = save_task_result host m t₁ w in finished (t₁, e, w₁)
  close_task aborted = aborted

  unfoldable pub process_task : Task → W → Fate W
  unfolding with_site close_task
  process_task t w = close_task (with_site t (sync host m w))

-- ===== src/Minion/Runs.antt =====
-- The part of `processTask` that loads the catalog of a task, runs it and sums it up: the catalog's
-- `New`, `Load`, `Run` and `Summary` on one logger.
use gru.Prelude.{ℕ, Bool, true, false, Option, List, [], ◌∷◌, ◌++◌, if◌then◌else◌}
use gru.Errors.{Error, Result, ok, err, panic}
use gru.Graph.Heap.{blank}
use gru.Graph.Sets.{MapSet}
use gru.Catalog.{Config, Line, starting, new_catalog, summarize}
use gru.Catalog.Execute.{Shared}
use gru.Catalog.Load.{Loaded, load, checked}
use gru.Catalog.Run.{Running}
use gru.Catalog.Run.Schedule.{run}
use gru.Minion.{Host}
pub mod Contract

-- What becomes of it: the error of `Load`, or the lines in the log, or a panic.
pub data CatalogRun : Type 0 where
  load_failed : Error → CatalogRun
  ran : List Line → CatalogRun
  crashed : CatalogRun

module _ (sets : MapSet) {W : Type 0} (host : Host W) where
  -- `Load` has printed its line and `Run` the number of its workers.
  abbrev pub begun : Config → Loaded W → W → Shared W
  begun config l w = record {
    world = w;
    status = [];
    log = l.line ∷ starting config.concurrency ∷ [];
  }

  -- The end of `Run`, and `Summary`.
  unfoldable pub summed_up : Bool → Shared W → CatalogRun × W
  summed_up true s = (crashed, s.world)
  summed_up false s = (ran (s.log ++ (summarize s.status ∷ [])), s.world)

  -- What follows `Load`.
  unfoldable pub launched : Config → Result (Loaded W) → W → CatalogRun × W
  unfolding summed_up
  launched config (ok l) w =
      let end = run l.heap l.catalog (host.schedule w) (begun config l w) in
      summed_up end.panicked end.shared
  launched config (err e) w = (load_failed e, w)
  launched config panic w = (crashed, w)

  unfoldable pub run_catalog : Config → W → CatalogRun × W
  unfolding launched
  run_catalog config w =
      let (rs, e, w₁) = host.do_file config w in
      launched config (load sets (λ _. checked (rs, e)) (new_catalog config) blank) w₁

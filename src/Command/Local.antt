-- ===== src/Command/Local.antt =====
-- gructl/command: apply.go, graph.go and serve.go.
use gru.Prelude.{
  ℕ, ℤ, pos, negsuc, String, Bool, Option, none, some, List, [], ◌∷◌, str_eq, if◌then◌else◌,
}
use gru.Errors.{Error, Result, ok, err, panic, no_module_name, missing_site_repo}
use gru.Graph.Sets.{MapSet}
use gru.Classifier.{Registry}
use gru.Catalog.{Config, Line}
use gru.Minion.{Host}
use gru.Minion.Keys.{Minion, Site, new_etcd_minion}
use gru.Minion.Runs.{CatalogRun, load_failed, ran, run_catalog}
use gru.Minion.Services.{Services, start}
use gru.Command.{Exit, done, exits}
pub mod Contract

-- The flags of the three commands, and their arguments.
pub record LocalFlags : Type 0 where
  pub args : List String
  pub concurrency : ℤ
  pub dry_run : Bool
  pub siterepo : String
  pub name : String

-- A concurrency below 0 stands for the number of CPUs.
unfoldable pub workers : ℕ → ℤ → ℕ
workers num_cpu (pos n) = n
workers num_cpu (negsuc n) = num_cpu

-- What the catalog printed, or how the command exits.
unfoldable pub applied : {W : Type 0} → CatalogRun × W → Exit (List Line) × W
applied (load_failed e, w) = (exits e 1, w)
applied (ran lines, w) = (done lines, w)
applied (CatalogRun.crashed, w) = (Exit.crashed, w)

module _ (sets : MapSet) {W : Type 0} (host : Host W) (num_cpu : ℕ) where
  unfoldable pub apply_config : LocalFlags → String → Config
  unfolding workers
  apply_config flags main = record {
    mod_name = main;
    dry_run = flags.dry_run;
    site_repo = flags.siterepo;
    concurrency = workers num_cpu flags.concurrency;
  }

  unfoldable pub exec_apply_command : LocalFlags → W → Exit (List Line) × W
  unfolding applied apply_config
  exec_apply_command flags w = elim flags.args [
    | [] ↦ (exits no_module_name 64, w)
    | main ∷ _ ↦ applied (run_catalog sets host (apply_config flags main) w)
  ]

  unfoldable pub waiting : Minion → Result (Services W) → Exit (Minion × Services W)
  waiting m (ok s) = done (m, s)
  waiting m (err e) = exits e 1
  waiting m panic = Exit.crashed

  -- What follows the making of the minion: its services, until a signal comes.
  unfoldable pub served : Registry W → Result Minion → W → Exit (Minion × Services W)
  unfolding waiting
  served registry (ok m) w = waiting m (start sets host m registry w)
  served registry (err e) w = exits e 1
  served registry panic w = Exit.crashed

  -- The name of the host is that of the minion unless a flag gives another.
  unfoldable pub serve_as :
      Site W → Registry W → LocalFlags → String × Option Error → W → Exit (Minion × Services W)
  unfolding served workers new_etcd_minion
  serve_as site registry flags (hostname, some e) w = exits e 1
  serve_as site registry flags (hostname, none) w =
      if str_eq flags.siterepo ""
      then exits missing_site_repo 64
      else served registry
          (new_etcd_minion site (if str_eq flags.name "" then hostname else flags.name)
            flags.siterepo (workers num_cpu flags.concurrency) w)
          w

  -- os.Hostname is the argument `hostname`.
  unfoldable pub exec_serve_command :
      (hostname : W → String × Option Error)
      → Site W
      → Registry W
      → LocalFlags
      → W
      → Exit (Minion × Services W)
  unfolding serve_as
  exec_serve_command hostname site registry flags w = serve_as site registry flags (hostname w) w

-- ===== src/Minion/Keys.antt =====
-- The keys of a minion in etcd, and the operations that set one of them.
use Prim.Native.String.{◌++◌ as str_append}
use gru.Prelude.{ℕ, String, Option, none, some}
use gru.Errors.{Error, Result, ok, err, panic}
use gru.Task.{Task}
use gru.Utils.Git.{GitRepo, new_git_repo}
use gru.Classifier.{Classifier}
use gru.Minion.{Host}

abbrev pub etcd_minion_space : String
etcd_minion_space = "/gru/minion"

-- filepath.Join of two clean paths that are not empty.
unfoldable pub join : String → String → String
join a b = str_append a (str_append "/" b)

pub record Minion : Type 0 where
  pub name : String
  pub root_dir : String
  pub queue_dir : String
  pub log_dir : String
  pub classifier_dir : String
  pub id : String
  pub git_repo : GitRepo
  pub concurrency : ℕ

-- The fields that NewEtcdMinion derives from the id.
unfoldable pub new_minion : String → String → GitRepo → ℕ → Minion
unfolding join
new_minion name id repo concurrency =
    let root = join etcd_minion_space id in
    record {
      name = name;
      root_dir = root;
      queue_dir = join root "queue";
      classifier_dir = join root "classifier";
      log_dir = join root "log";
      id = id;
      git_repo = repo;
      concurrency = concurrency;
    }

-- The packages that `NewEtcdMinion` calls: the client of etcd, the operating system and the uuids.
pub record Site (W : Type 0) : Type 0 where
  pub etcd_new : Option Error
  pub getwd : W → String × Option Error
  pub look_path : String → String × Option Error
  pub generate_uuid : String → String

module _ {W : Type 0} (site : Site W) where
  -- What follows the making of the git repository.
  unfoldable pub minion_with : String → ℕ → Option GitRepo × Option Error → Result Minion
  minion_with name concurrency (repo, some e) = err e
  minion_with name concurrency (none, none) = panic
  minion_with name concurrency (some repo, none) =
      ok (new_minion name (site.generate_uuid name) repo concurrency)

  unfoldable pub minion_in : String → String → ℕ → String × Option Error → Result Minion
  unfolding minion_with new_git_repo join
  minion_in name upstream concurrency (cwd, some e) = err e
  minion_in name upstream concurrency (cwd, none) =
      minion_with name concurrency (new_git_repo site.look_path (join cwd "site") upstream)

  unfoldable pub new_etcd_minion : String → String → ℕ → W → Result Minion
  unfolding minion_in
  new_etcd_minion name upstream concurrency w = elim site.etcd_new [
    | some e ↦ err e
    | none ↦ minion_in name upstream concurrency (site.getwd w)
  ]

module _ {W : Type 0} (host : Host W) (m : Minion) where
  unfoldable pub set_name : String → W → Option Error × W
  set_name name = host.kapi_set (join m.root_dir "name") name

  unfoldable pub set_lastseen : ℕ → W → Option Error × W
  set_lastseen s = host.kapi_set (join m.root_dir "lastseen") (host.format_int s)

  -- A classifier expires after an hour.
  unfoldable pub set_classifier : Classifier → W → Option Error × W
  set_classifier c = host.kapi_set_hour (join m.classifier_dir c.key) (host.marshal_classifier c)

  unfoldable pub save_task_result : Task → W → Option Error × W
  save_task_result t = host.kapi_set (join m.log_dir t.id) (host.marshal_task t)

  -- Up to the start of the services: the error at which `Serve` returns.
  unfoldable pub serve : W → Option Error × W
  unfolding set_name set_lastseen
  serve w =
      let (e, w₁) = set_name m.name w in
      elim e [ some e₁ ↦ (some e₁, w₁) | none ↦ set_lastseen (host.now w₁) w₁ ]

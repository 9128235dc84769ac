-- ===== src/Minion.antt =====
-- minion/etcd.go: a minion takes tasks from its queue in etcd, processes them one at a time and
-- stores their results.
--
-- The clients of etcd, of JSON and of the operating system are the parameter `Host`, over a world
-- `W` that they act upon.
pub mod Keys
pub mod Sync
pub mod Runs
pub mod Process
pub mod Queue
pub mod Services
use gru.Prelude.{ℕ, String, Bool, Option, List}
use gru.Errors.{Error}
use gru.Task.{Task}
use gru.Resource.{Resource}
use gru.Classifier.{Classifier}
use gru.Catalog.{Config, Line}
use gru.Utils.Git.{Exec}

-- The part of an etcd node that is read.
pub record Leaf : Type 0 where
  pub key : String
  pub value : String

-- resp.Node: a key, or a directory with the nodes in it.
pub record Directory : Type 0 where
  pub value : String
  pub nodes : List Leaf

-- What the watcher of the queue reports: the action and its node.
pub record Event : Type 0 where
  pub action : String
  pub node : Leaf

-- The answer of a Get: on an error the response is nil.
pub data Reply : Type 0 where
  found : Directory → Reply
  failed : Error → Reply

pub record Host (W : Type 0) : Type 0 where
  -- The KeysAPI of etcd.
  pub kapi_get : String → W → Reply × W
  -- A Get with the nodes sorted.
  pub kapi_get_sorted : String → W → Reply × W
  pub kapi_set : String → String → W → Option Error × W
  pub kapi_set_hour : String → String → W → Option Error × W
  pub kapi_delete : String → W → W
  pub kapi_create_in_order : String → String → W → Option Error × W
  -- encoding/json on tasks and classifiers: none is an error.  A value that is the JSON text null
  -- decodes to a nil task without an error; such a value, which no part of the program writes, is
  -- left out.
  pub marshal_task : Task → String
  pub unmarshal_task : String → Option Task
  pub marshal_classifier : Classifier → String
  pub unmarshal_classifier : String → Option Classifier
  -- The operating system.
  pub exec : Exec W
  pub path_missing : String → W → Bool
  pub now : W → ℕ
  pub trim : String → String
  -- strconv, and err.Error().
  pub format_int : ℕ → String
  pub parse_int : String → Option ℕ
  -- path.Base, and uuid.Parse, which is nil on what is no uuid.
  pub base : String → String
  pub parse_uuid : String → Option String
  -- The package `strings`.
  pub to_lower : String → String
  pub equal_fold : String → String → Bool
  pub message : Error → String
  -- L.DoFile on the module of a catalog: the resources that it adds, and its error.
  pub do_file : Config → W → List (Option (Resource W)) × Option Error × W
  -- The choices that the Go scheduler makes among the goroutines of a run.
  pub schedule : W → ℕ → ℕ
  -- The text that a logger makes of the lines that it is given.
  pub log_text : List Line → String

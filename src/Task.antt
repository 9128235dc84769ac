-- ===== src/Task.antt =====
-- task/task.go: tasks and their states.
use gru.Prelude.{ℕ, String, Bool, false}

abbrev pub task_state_unknown : String
task_state_unknown = "unknown"

abbrev pub task_state_queued : String
task_state_queued = "queued"

abbrev pub task_state_processing : String
task_state_processing = "processing"

abbrev pub task_state_success : String
task_state_success = "success"

abbrev pub task_state_failed : String
task_state_failed = "failed"

abbrev pub task_state_skipped : String
task_state_skipped = "skipped"

pub record Task : Type 0 where
  pub dry_run : Bool
  pub environment : String
  pub command : String
  pub time_received : ℕ
  pub time_processed : ℕ
  pub id : String
  pub result : String
  pub state : String

-- The random id is an argument.
unfoldable pub new_task : String → String → String → Task
new_task id command environment = record {
  dry_run = false;
  environment = environment;
  command = command;
  time_received = 0;
  time_processed = 0;
  id = id;
  result = "";
  state = task_state_unknown;
}

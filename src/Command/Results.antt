-- ===== src/Command/Results.antt =====
-- gructl/command: log.go and result.go.
use gru.Prelude.{String, List, [], ◌∷◌, str_eq, if◌then◌else◌}
use gru.Errors.{no_task}
use gru.Task.{Task}
use gru.Client.Interface.{Client}
use gru.Command.{
  text, time, Row, Act, ◌>>=◌, Flags, Cli, give, try, try_missing, for_each, first_arg, parse,
  minion_arg,
}
use gru.Command.Inspect.{unless_empty}

module _ {W : Type 0} (cli : Cli W) (klient : Client W) (flags : Flags) where
  unfoldable pub log_row : String → String → Act W (List Row)
  unfolding try give
  log_row minion id = do
    t ← try (klient.task_result minion id)
    give ((text t.id ∷ text t.state ∷ time t.time_received ∷ time t.time_processed ∷ []) ∷ [])

  unfoldable pub exec_log_command : Act W (List Row)
  unfolding minion_arg try_missing for_each log_row give
  exec_log_command = do
    minion ← minion_arg cli flags
    log ← try_missing (klient.task_log minion)
    rows ← for_each (log_row minion) log
    give (unless_empty (text "TASK" ∷ text "STATE" ∷ text "RECEIVED" ∷ text "PROCESSED" ∷ []) rows)

  -- The minions whose results are shown.
  unfoldable pub minions_with : String → Act W (List String)
  unfolding try parse give
  minions_with id =
      if str_eq flags.minion ""
      then try (klient.with_task_result id)
      else (do minion ← parse cli flags.minion; give (minion ∷ []))

  -- What one minion adds to the table.
  unfoldable pub task_rows : String → Task → List Row
  task_rows minion t =
      if flags.details
      then (text "Minion:" ∷ text minion ∷ [])
        ∷ (text "Task ID:" ∷ text t.id ∷ [])
        ∷ (text "State:" ∷ text t.state ∷ [])
        ∷ (text "Received:" ∷ time t.time_received ∷ [])
        ∷ (text "Processed:" ∷ time t.time_processed ∷ [])
        ∷ (text "Result:" ∷ text t.result ∷ [])
        ∷ []
      else (text minion ∷ text t.result ∷ text t.state ∷ []) ∷ []

  unfoldable pub result_rows : String → String → Act W (List Row)
  unfolding try give task_rows
  result_rows id minion = do t ← try (klient.task_result minion id); give (task_rows minion t)

  -- The summary has a head, the table of the details has none.
  unfoldable pub result_table : List Row → List Row
  result_table rows =
      if flags.details
      then rows
      else unless_empty (text "MINION" ∷ text "RESULT" ∷ text "STATE" ∷ []) rows

  unfoldable pub exec_result_command : Act W (List Row)
  unfolding first_arg parse minions_with for_each result_rows give result_table
  exec_result_command = do
    arg ← first_arg no_task flags
    id ← parse cli arg
    minions ← minions_with id
    rows ← for_each (result_rows id) minions
    give (result_table rows)

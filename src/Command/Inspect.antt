-- ===== src/Command/Inspect.antt =====
-- gructl/command: list.go, lastseen.go, info.go, classifier.go and queue.go.
use gru.Prelude.{String, List, [], ◌∷◌, length}
use gru.Task.{Task}
use gru.Client.Interface.{Client}
use gru.Command.{
  text, number, time, Row, Act, ◌>>=◌, Flags, Cli, give, try, try_missing, for_each, minion_arg,
}
use gru.Command.Pattern.{parse_classifier_pattern}

-- A table is printed unless there is nothing in it.
abbrev pub unless_empty : Row → List Row → List Row
unless_empty head [] = []
unless_empty head (row ∷ rows) = head ∷ row ∷ rows

module _ {W : Type 0} (cli : Cli W) (klient : Client W) (flags : Flags) where
  unfoldable pub list_row : String → Act W (List Row)
  unfolding try give
  list_row m = do name ← try (klient.name m); give ((text m ∷ text name ∷ []) ∷ [])

  unfoldable pub exec_list_command : Act W (List Row)
  unfolding try_missing for_each list_row give parse_classifier_pattern
  exec_list_command = do
    minions ← try_missing (parse_classifier_pattern cli klient flags.with_classifier)
    rows ← for_each list_row minions
    give (unless_empty (text "MINION" ∷ text "NAME" ∷ []) rows)

  unfoldable pub lastseen_row : String → Act W (List Row)
  unfolding try give
  lastseen_row m = do seen ← try (klient.lastseen m); give ((text m ∷ time seen ∷ []) ∷ [])

  unfoldable pub exec_lastseen_command : Act W (List Row)
  unfolding try for_each lastseen_row give parse_classifier_pattern
  exec_lastseen_command = do
    minions ← try (parse_classifier_pattern cli klient flags.with_classifier)
    rows ← for_each lastseen_row minions
    give ((text "MINION" ∷ text "LASTSEEN" ∷ []) ∷ rows)

  unfoldable pub exec_info_command : Act W (List Row)
  unfolding minion_arg try try_missing give
  exec_info_command = do
    minion ← minion_arg cli flags
    name ← try (klient.name minion)
    seen ← try (klient.lastseen minion)
    queue ← try_missing (klient.task_queue minion)
    log ← try_missing (klient.task_log minion)
    keys ← try_missing (klient.classifier_keys minion)
    give (
        (text "Minion:" ∷ text minion ∷ [])
        ∷ (text "Name:" ∷ text name ∷ [])
        ∷ (text "Lastseen:" ∷ time seen ∷ [])
        ∷ (text "Queue:" ∷ number (length queue) ∷ [])
        ∷ (text "Log:" ∷ number (length log) ∷ [])
        ∷ (text "Classifiers:" ∷ number (length keys) ∷ [])
        ∷ [])

  unfoldable pub classifier_row : String → String → Act W (List Row)
  unfolding try give
  classifier_row minion key = do
    c ← try (klient.classifier minion key)
    give ((text c.key ∷ text c.value ∷ []) ∷ [])

  unfoldable pub exec_classifier_command : Act W (List Row)
  unfolding minion_arg try_missing for_each classifier_row give
  exec_classifier_command = do
    minion ← minion_arg cli flags
    keys ← try_missing (klient.classifier_keys minion)
    rows ← for_each (classifier_row minion) keys
    give (unless_empty (text "KEY" ∷ text "VALUE" ∷ []) rows)

  abbrev pub queue_rows : List Task → List Row
  queue_rows [] = []
  queue_rows (t ∷ ts) = (text t.id ∷ text t.state ∷ time t.time_received ∷ []) ∷ queue_rows ts

  unfoldable pub exec_queue_command : Act W (List Row)
  unfolding minion_arg try_missing give
  exec_queue_command = do
    minion ← minion_arg cli flags
    queue ← try_missing (klient.task_queue minion)
    give (unless_empty (text "TASK" ∷ text "STATE" ∷ text "RECEIVED" ∷ []) (queue_rows queue))

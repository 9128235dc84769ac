-- ===== src/Command/Push.antt =====
-- gructl/command/push.go: a task is submitted to each of the selected minions.
use gru.Prelude.{ℕ, ◌-◌, String, Option, none, some, List, [], ◌∷◌, length}
use gru.Errors.{Error, no_module_name, no_minion_found}
use gru.Task.{Task, new_task}
use gru.Client.Interface.{Client}
use gru.Command.{
  text, number, Row, Act, ◌>>=◌, Flags, Cli, give, done, exits, exit_with, try, first_arg,
}
use gru.Command.Pattern.{parse_classifier_pattern}
pub mod Contract

-- What the command prints: the number of minions found, the failures, and the table.
pub record Submission : Type 0 where
  pub found : ℕ
  pub failures : List (String × Error)
  pub table : List Row

unfoldable pub noted : String → Option Error → List (String × Error) → List (String × Error)
noted m none failures = failures
noted m (some e) failures = (m, e) ∷ failures

-- submitted is numMinions-failed.
unfoldable pub task_report : Task → List String → List (String × Error) → Submission
task_report t minions failures =
    let total = length minions in
    let failed = length failures in
    record {
      found = total;
      failures = failures;
      table =
          (text "TASK" ∷ text "SUBMITTED" ∷ text "FAILED" ∷ text "TOTAL" ∷ [])
          ∷ (text t.id ∷ number (total - failed) ∷ number failed ∷ number total ∷ [])
          ∷ [];
    }

module _ {W : Type 0} (cli : Cli W) (klient : Client W) where
  -- The loop over the minions: a failure does not end it.
  unfoldable pub submit_all : Task → List String → W → List (String × Error) × W
  unfolding noted
  submit_all t [] w = ([], w)
  submit_all t (m ∷ ms) w =
      let (e, w₁) = klient.submit_task m t w in
      let (failures, w₂) = submit_all t ms w₁ in (noted m e failures, w₂)

  unfoldable pub submit : Task → List String → Act W Submission
  unfolding submit_all task_report
  submit t [] w = (exits no_minion_found 1, w)
  submit t (m ∷ ms) w =
      let (failures, w₁) = submit_all t (m ∷ ms) w in (done (task_report t (m ∷ ms) failures), w₁)

  unfoldable pub make_task : Flags → String → Act W Task
  unfolding new_task
  make_task flags main w =
      let (id, w₁) = cli.new_uuid w in (done (new_task id main flags.environment), w₁)

  unfoldable pub exec_push_command : Flags → Act W Submission
  unfolding first_arg make_task try parse_classifier_pattern submit
  exec_push_command flags = do
    main ← first_arg no_module_name flags
    t ← make_task flags main
    minions ← try (parse_classifier_pattern cli klient flags.with_classifier)
    submit t minions

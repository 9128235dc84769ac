-- ===== src/Command/Report.antt =====
-- gructl/command/report.go: how many minions have each value of a classifier.
use gru.Prelude.{ℕ, ◌+◌, String, Option, none, some, List, [], ◌∷◌, Map, lookup, insert}
use gru.Errors.{no_classifier}
use gru.Client.Interface.{Client}
use gru.Command.{text, number, Row, Act, ◌>>=◌, Flags, give, try, first_arg}
use gru.Command.Inspect.{unless_empty}
pub mod Contract

-- report[value], which is 0 on a value that is not there yet.
unfoldable pub count_at : String → Map ℕ → ℕ
count_at value report = elim (lookup value report) [ none ↦ 0 | some n ↦ n ]

-- report[value]++
unfoldable pub increment : String → Map ℕ → Map ℕ
unfolding count_at
increment value report = insert value (count_at value report + 1) report

abbrev pub report_rows : String → Map ℕ → List Row
report_rows key [] = []
report_rows key ((value, n) ∷ report) =
    (text key ∷ text value ∷ number n ∷ []) ∷ report_rows key report

module _ {W : Type 0} (klient : Client W) where
  -- The loop over the minions that have the key.
  unfoldable pub tally : String → List String → Map ℕ → Act W (Map ℕ)
  unfolding give try increment
  tally key [] report = give report
  tally key (m ∷ ms) report = do
    c ← try (klient.classifier m key)
    tally key ms (increment c.value report)

  unfoldable pub exec_report_command : Flags → Act W (List Row)
  unfolding first_arg try tally give
  exec_report_command flags = do
    key ← first_arg no_classifier flags
    minions ← try (klient.with_classifier_key key)
    report ← tally key minions []
    give (
        unless_empty (text "CLASSIFIER" ∷ text "VALUE" ∷ text "MINION(S)" ∷ [])
          (report_rows key report))

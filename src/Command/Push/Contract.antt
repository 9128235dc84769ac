-- ===== src/Command/Push/Contract.antt =====
-- The report of a push.
use gru.Prelude.{
  ℕ, ◌+◌, ◌-◌, String, none, some, List, [], ◌∷◌, ◌≡◌, refl, ap, length, Option-cases, inl, inr,
  arith,
}
use gru.Errors.{ok}
use gru.Task.{Task, new_task}
use gru.Client.Interface.{Client}
use gru.Command.{
  Row, text, number, Exit, done, Cli, Flags, ◌>>=◌, first_arg, first_of, give, try, settle,
}
use gru.Command.Pattern.{parse_classifier_pattern}
use gru.Command.Push.{
  Submission, noted, task_report, submit_all, submit, make_task, exec_push_command,
}

module _ {W : Type 0} (cli : Cli W) (klient : Client W) (t : Task) where
  -- The minions to which the submission succeeds, each of them being tried once in the order of the
  -- list, and the world at the end.
  pub accepted_by : List String → W → List String × W
  accepted_by [] w = ([], w)
  accepted_by (m ∷ ms) w =
      let (e, w₁) = klient.submit_task m t w in
      let (us, w₂) = accepted_by ms w₁ in (elim e [ none ↦ m ∷ us | some _ ↦ us ], w₂)

  submit_all-accepted_by :
      (ms : List String) (w : W)
      → (length (submit_all cli klient t ms w).0 + length (accepted_by ms w).0 ≡ length ms)
        × ((submit_all cli klient t ms w).1 ≡ (accepted_by ms w).1)
  unfolding submit_all accepted_by noted
  submit_all-accepted_by [] w = (refl, refl)
  submit_all-accepted_by (m ∷ ms) w =
      let (e, w₁) = klient.submit_task m t w in
      let (sum, same) = submit_all-accepted_by ms w₁ in
      elim (Option-cases e) [
        | inl h ↦ (ground (arith, h, sum), same)
        | inr (x, h) ↦ (ground (arith, h, sum), same)
      ]

  -- The table of a push.
  pub table_of : ℕ → ℕ → ℕ → List Row
  table_of submitted failed total =
      (text "TASK" ∷ text "SUBMITTED" ∷ text "FAILED" ∷ text "TOTAL" ∷ [])
      ∷ (text t.id ∷ number submitted ∷ number failed ∷ number total ∷ [])
      ∷ []

  -- What a push prints of the minions that it tried.
  unfoldable pub IsPush : List String → W → Exit Submission × W → Type 0
  IsPush ms w p =
      (s : Submission) × (p ≡ (done s, (accepted_by ms w).1))
      × (s.table ≡ table_of (length (accepted_by ms w).0) (length s.failures) (length ms))
      × (length s.failures + length (accepted_by ms w).0 ≡ length ms)

  submit-IsPush :
      (m : String) (ms : List String) (w : W) → IsPush (m ∷ ms) w (submit cli klient t (m ∷ ms) w)
  unfolding submit task_report table_of IsPush
  submit-IsPush m ms w =
      let (failures, w₁) = submit_all cli klient t (m ∷ ms) w in
      let (sum, same) = submit_all-accepted_by (m ∷ ms) w in
      let submitted : length (m ∷ ms) - length failures ≡ length (accepted_by (m ∷ ms) w).0 =
        omega (arith, sum) in
      (
        task_report t (m ∷ ms) failures,
        ap (λ v. (done (task_report t (m ∷ ms) failures), v)) same,
        ap (λ n. table_of n (length failures) (length (m ∷ ms))) submitted,
        sum,
      )

module _ {W : Type 0} (cli : Cli W) (klient : Client W) where
  -- Where the pattern selects at least one minion: `gructl push` tries each of them once with the new
  -- task, in the order of the list and whatever fails, and does nothing else; it reports as submitted
  -- the number of those that took the task, and as failed that of the others.
  pub exec_push_command-IsPush :
      (flags : Flags) (main : String) (more : List String) (id m : String) (ms : List String)
      (w w₁ w₂ : W)
      → flags.args ≡ main ∷ more
      → cli.new_uuid w ≡ (id, w₁)
      → parse_classifier_pattern cli klient flags.with_classifier w₁ ≡ (ok (m ∷ ms), w₂)
      → IsPush cli klient
          (new_task id main flags.environment)
          (m ∷ ms)
          w₂
          (exec_push_command cli klient flags w)
  unfolding exec_push_command first_arg first_of give make_task try settle ◌>>=◌
  exec_push_command-IsPush flags main more id m ms w w₁ w₂ given fresh selects = rw given (
      rw fresh (rw selects (submit-IsPush cli klient (new_task id main flags.environment) m ms w₂)))

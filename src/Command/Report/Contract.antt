-- ===== src/Command/Report/Contract.antt =====
-- The counts of a report.
use gru.Prelude.{
  ℕ, ◌+◌, String, List, All, [], ◌∷◌, ◌≡◌, refl, Map, lookup, lookup-insert, insert-IsMap, IsMap,
  select, length, arith, str_eq, eq_iff, if◌then◌else◌,
}
use gru.Errors.{ok}
use gru.Classifier.{Classifier}
use gru.Client.Interface.{Client}
use gru.Command.{◌>>=◌, first_of, text, Cli, Flags, done, try, settle, give, first_arg}
use gru.Command.Report.{count_at, increment, report_rows, tally, exec_report_command}
use gru.Command.Inspect.{unless_empty}

count_at-increment :
    (value other : String) (report : Map ℕ)
    → count_at other (increment value report)
      ≡ count_at other report + (if str_eq value other then 1 else 0)
unfolding count_at increment
count_at-increment value other report =
    ground (arith, lookup-insert value other (count_at value report + 1) report, eq_iff value other)

count_at-empty : (v : String) → count_at v [] ≡ 0
unfolding count_at lookup
count_at-empty v = refl

increment-IsMap : (value : String) (report : Map ℕ) → IsMap report → IsMap (increment value report)
unfolding increment
increment-IsMap value report u = insert-IsMap value (count_at value report + 1) report u

module _ {W : Type 0} (cli : Cli W) (klient : Client W) where
  -- The classifier of the key is there for all of the minions, and looking it up changes nothing.
  unfoldable pub HasValues : String → (String → Classifier) → W → List String → Type 0
  HasValues key value w ms = All (λ m. klient.classifier m key w ≡ (ok (value m), w)) ms

  -- How many of the minions have a value.
  abbrev pub holders : (String → Classifier) → String → List String → ℕ
  holders value v ms = length (select (λ m. str_eq (value m).value v) ms)

  tally-count_at :
      (key : String) (value : String → Classifier) (ms : List String) (report : Map ℕ) (w : W)
      → HasValues key value w ms
      → IsMap report
      → (r : Map ℕ) × (tally klient key ms report w ≡ (done r, w))
        × IsMap r
        × ((v : String) → count_at v r ≡ count_at v report + holders value v ms)
  unfolding HasValues tally ◌>>=◌
  tally-count_at key value [] report w has unique = (report, refl, unique, λ v. omega arith)
  tally-count_at key value (m ∷ ms) report w (has, rest) unique =
      let (r, ends, uniquer, counts) =
        tally-count_at key value ms (increment (value m).value report) w rest
          (increment-IsMap (value m).value report unique) in
      (
        r,
        rw (has, tally, try, settle) ends,
        uniquer,
        λ v. ground (arith, counts v, count_at-increment (value m).value v report),
      )

  -- Where the classifier of a key can be looked up for every minion that the search for the key
  -- finds: the report has, under its head, one row for each value, and each value is counted as often
  -- as a minion has it.
  pub exec_report_command-counts :
      (flags : Flags) (key : String) (more : List String) (value : String → Classifier)
      (ms : List String) (w w₁ : W)
      → flags.args ≡ key ∷ more
      → klient.with_classifier_key key w ≡ (ok ms, w₁)
      → HasValues key value w₁ ms
      → (r : Map ℕ) × (exec_report_command klient flags w ≡ (
        done (
            unless_empty
              (text "CLASSIFIER" ∷ text "VALUE" ∷ text "MINION(S)" ∷ [])
              (report_rows key r)),
        w₁,
      ))
        × IsMap r
        × ((v : String) → count_at v r ≡ holders value v ms)
  unfolding exec_report_command first_arg first_of try settle give ◌>>=◌
  exec_report_command-counts flags key more value ms w w₁ given found has =
      let (r, ends, unique, counts) = tally-count_at key value ms [] w₁ has tt in
      (
        r,
        rw given (rw found (rw ends refl)),
        unique,
        λ v. omega (arith, counts v, count_at-empty v),
      )

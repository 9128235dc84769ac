-- ===== src/Samples/Commands.antt =====
-- Two minions, of which the second takes no tasks, and the commands on them.
use gru.Prelude.{
  ℕ, ◌+◌, String, true, false, none, some, List, [], ◌∷◌, ◌≡◌, ◌↔◌, refl, IsMap, Map, str_eq,
  if◌then◌else◌,
}
use gru.Errors.{ok, other}
use gru.Task.{Task, new_task}
use gru.Classifier.{Classifier, get}
use gru.Classifier.Providers.{System, registry, IsSplitless, get-IsSplitless}
use gru.Client.Interface.{Client}
use gru.Command.{Cli, Flags, done, text}
use gru.Command.Inspect.{unless_empty}
use gru.Command.Pattern.{parse_classifier_pattern}
use gru.Command.Push.{exec_push_command}
use gru.Command.Push.Contract.{IsPush, exec_push_command-IsPush}
use gru.Command.Report.{report_rows, exec_report_command, count_at}
use gru.Command.Report.Contract.{HasValues, holders, exec_report_command-counts}

abbrev a_task : Task
unfolding new_task
a_task = new_task "7" "site" "production"

abbrev both : List String
both = "1" ∷ "2" ∷ []

abbrev os_of : String → Classifier
os_of m = record { key = "os"; value = if str_eq m "1" then "linux" else "freebsd" }

-- The world counts the submissions.
abbrev klient : Client ℕ
klient = record {
  list = λ w. (ok both, w);
  name = λ m w. (ok m, w);
  lastseen = λ m w. (ok 12, w);
  classifier = λ m key w. (ok (os_of m), w);
  classifier_keys = λ m w. (ok ("os" ∷ []), w);
  with_classifier_key = λ key w. (ok both, w);
  task_result = λ m t w. (ok a_task, w);
  with_task_result = λ t w. (ok both, w);
  task_queue = λ m w. (ok [], w);
  task_log = λ m w. (ok [], w);
  submit_task = λ m t w. ((if str_eq m "1" then none else some (other "refused")), w + 1);
}

abbrev cli : Cli ℕ
cli = record {
  parse_uuid = λ s. if str_eq s "x" then none else some s;
  new_uuid = λ w. ("7", w);
  split_n = λ s sep n. if str_eq s "os=linux" then "os" ∷ "linux" ∷ [] else s ∷ [];
  compile = λ s. ok (str_eq s);
}

abbrev flags : Flags
flags = record {
  args = "os" ∷ [];
  with_classifier = "";
  environment = "production";
  minion = "";
  details = false;
}

true_ne_false : ¬ (false ≡ true)
true_ne_false h = cc h

values_there : HasValues cli klient "os" os_of 0 both
unfolding HasValues
values_there = (refl, (refl, tt))

exec_push_command-IsPush_example :
    IsPush cli klient (new_task "7" "os" "production") both 0 (exec_push_command cli klient flags 0)
unfolding parse_classifier_pattern
exec_push_command-IsPush_example =
    exec_push_command-IsPush cli klient flags "os" [] "7" "1" ("2" ∷ []) 0 0 0 refl refl refl

exec_report_command-counts_example :
    (r : Map ℕ) × (exec_report_command klient flags 0 ≡ (
      done (
          unless_empty
            (text "CLASSIFIER" ∷ text "VALUE" ∷ text "MINION(S)" ∷ [])
            (report_rows "os" r)),
      0,
    ))
    × IsMap r
    × ((v : String) → count_at v r ≡ holders cli klient os_of v both)
exec_report_command-counts_example =
    exec_report_command-counts cli klient flags "os" [] os_of both 0 0 refl refl values_there

-- A system on which lsb_release prints a line that has no colon.
abbrev system : System ℕ
system = record {
  goarch = "amd64";
  goos = "linux";
  hostname = λ w. ("host", none, w);
  exec = λ program args w. ("none", none, w);
  split = λ s sep. s ∷ [];
  trim_space = λ s. s;
}

get-IsSplitless_example :
    (get (registry system) "lsbdistid" 0 ≡ none) ↔ IsSplitless system "lsbdistid" 0
get-IsSplitless_example = get-IsSplitless system 0 "lsbdistid"

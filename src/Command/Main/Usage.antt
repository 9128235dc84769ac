-- ===== src/Command/Main/Usage.antt =====
-- Where a command is used wrongly it exits with the code 64 before it does anything else.
use gru.Prelude.{
  ℕ, Map, String, Bool, true, false, ◌||◌, Option, none, some, List, [], ◌∷◌, refl, arith, str_eq,
  if◌then◌else◌,
}
use gru.Errors.{Error, invalid_uuid, no_minion, no_classifier, no_module_name, no_task}
use gru.Task.{Task}
use gru.Command.Pattern.{parse_classifier_pattern}
use gru.Client.Interface.{Client}
use gru.Command.{
  Row, Act, ◌>>=◌, Flags, Cli, give, exit_with, try, first_of, uuid_or_exit, first_arg, parse,
  minion_arg,
}
use gru.Command.Inspect.{
  list_row, exec_list_command, lastseen_row, exec_lastseen_command, exec_info_command,
  classifier_row, exec_classifier_command, exec_queue_command,
}
use gru.Command.Results.{log_row, exec_log_command, minions_with, result_rows, exec_result_command}
use gru.Command.Push.{submit, make_task, exec_push_command}
use gru.Command.Report.{tally, exec_report_command}
use gru.Command.Main.{
  Name, list, info, push, classifier, report, queue, log, lastseen, result, apply, graph, serve,
  Local, table, printed, execute,
}
use gru.Command.Local.{exec_serve_command}
use gru.Command.Main.Catalogs.{
  no_arg, no_uuid, lacks_repo, printed-IsUsage, apply-IsUsage, graph-IsUsage, serve-IsUsage,
}
use gru.Command.Main.Used.{
  code_of, IsUsed, give-IsUsed, try-IsUsed, try_missing-IsUsed, bind-IsUsed, for_each-IsUsed, IsArg,
  IsUsage, IsArg-bind, IsUsage-of,
}

-- The first argument is missing or no uuid.
pub no_minion_arg : {W : Type 0} → Cli W → List String → Bool
no_minion_arg cli [] = true
no_minion_arg cli (arg ∷ _) = no_uuid (cli.parse_uuid arg)

first_of-IsArg :
    (W : Type 0) (e : Error) (args : List String) → IsArg {W = W} (no_arg args) (first_of e args)
unfolding first_of no_arg IsArg exit_with
first_of-IsArg W e [] = (e, λ w. refl)
first_of-IsArg W e (arg ∷ _) = give-IsUsed W arg

uuid_or_exit-IsArg : (W : Type 0) (o : Option String) → IsArg {W = W} (no_uuid o) (uuid_or_exit o)
unfolding uuid_or_exit no_uuid IsArg exit_with
uuid_or_exit-IsArg W none = (invalid_uuid, λ w. refl)
uuid_or_exit-IsArg W (some u) = give-IsUsed W u

ruleset used_laws = (bind-IsUsed, try-IsUsed, try_missing-IsUsed, give-IsUsed, for_each-IsUsed)

module _ {W : Type 0} where
  minion_of-IsArg :
      (cli : Cli W) (args : List String)
      → IsArg (no_minion_arg cli args) (first_of no_minion args >>= λ arg. parse cli arg)
  unfolding first_of exit_with no_minion_arg IsArg give parse ◌>>=◌
  minion_of-IsArg cli [] = (no_minion, λ w. refl)
  minion_of-IsArg cli (arg ∷ _) = uuid_or_exit-IsArg W (cli.parse_uuid arg)

  minion_arg-IsArg :
      (cli : Cli W) (flags : Flags) → IsArg (no_minion_arg cli flags.args) (minion_arg cli flags)
  unfolding minion_arg first_arg
  minion_arg-IsArg cli flags = minion_of-IsArg cli flags.args

  module _ (cli : Cli W) (klient : Client W) (flags : Flags) where
    exec_list-IsArg : IsArg false (exec_list_command cli klient flags)
    unfolding exec_list_command list_row IsArg
    exec_list-IsArg = search used_laws

    exec_lastseen-IsArg : IsArg false (exec_lastseen_command cli klient flags)
    unfolding exec_lastseen_command lastseen_row IsArg
    exec_lastseen-IsArg = search used_laws

    exec_info-IsArg : IsArg (no_minion_arg cli flags.args) (exec_info_command cli klient flags)
    unfolding exec_info_command
    exec_info-IsArg =
        IsArg-bind _ (minion_arg cli flags) _ (minion_arg-IsArg cli flags)
          (λ m. search (used_laws) depth 12)

    exec_classifier-IsArg :
        IsArg (no_minion_arg cli flags.args) (exec_classifier_command cli klient flags)
    unfolding exec_classifier_command classifier_row
    exec_classifier-IsArg =
        IsArg-bind _ (minion_arg cli flags) _ (minion_arg-IsArg cli flags) (λ m. search used_laws)

    exec_queue-IsArg : IsArg (no_minion_arg cli flags.args) (exec_queue_command cli klient flags)
    unfolding exec_queue_command
    exec_queue-IsArg =
        IsArg-bind _ (minion_arg cli flags) _ (minion_arg-IsArg cli flags) (λ m. search used_laws)

    exec_log-IsArg : IsArg (no_minion_arg cli flags.args) (exec_log_command cli klient flags)
    unfolding exec_log_command log_row
    exec_log-IsArg =
        IsArg-bind _ (minion_arg cli flags) _ (minion_arg-IsArg cli flags) (λ m. search used_laws)

    tally-IsUsed :
        (key : String) (ms : List String) (counts : Map ℕ) → IsUsed (tally klient key ms counts)
    unfolding tally
    tally-IsUsed key [] counts = give-IsUsed W counts
    tally-IsUsed key (m ∷ ms) counts =
        bind-IsUsed _ _ (try-IsUsed (klient.classifier m key)) (λ c. tally-IsUsed key ms _)

    report-IsArg : IsArg (no_arg flags.args) (exec_report_command klient flags)
    unfolding exec_report_command first_arg
    report-IsArg =
        IsArg-bind _ (first_of no_classifier flags.args) _
          (first_of-IsArg W no_classifier flags.args)
          (λ key.
            bind-IsUsed _ _ (try-IsUsed (klient.with_classifier_key key))
              (λ ms. bind-IsUsed _ _ (tally-IsUsed key ms []) (λ r. give-IsUsed W _)))

    submit-IsUsed : (t : Task) (ms : List String) → IsUsed (submit cli klient t ms)
    unfolding submit IsUsed code_of
    submit-IsUsed t [] w h = omega (arith, h)
    submit-IsUsed t (m ∷ ms) w h = omega (arith, h)

    make_task-IsUsed : (main : String) → IsUsed (make_task cli klient flags main)
    unfolding make_task IsUsed code_of
    make_task-IsUsed main w h = omega (arith, h)

    push-IsArg : IsArg (no_arg flags.args) (exec_push_command cli klient flags)
    unfolding exec_push_command first_arg
    push-IsArg =
        IsArg-bind _ (first_of no_module_name flags.args) _
          (first_of-IsArg W no_module_name flags.args)
          (λ main. bind-IsUsed _ _ (make_task-IsUsed main) (λ t.
            bind-IsUsed _ _ (try-IsUsed (parse_classifier_pattern cli klient flags.with_classifier))
              (λ ms. submit-IsUsed t ms)))

    flag-IsArg :
        (b : Bool) (id : String)
        → IsArg (if b then false else no_uuid (cli.parse_uuid flags.minion)) (
            if b
            then try (klient.with_task_result id)
            else (parse cli flags.minion >>= λ minion. give (minion ∷ [])))
    unfolding IsArg parse
    flag-IsArg true id = try-IsUsed (klient.with_task_result id)
    flag-IsArg false id =
        IsArg-bind _ (uuid_or_exit (cli.parse_uuid flags.minion)) _
          (uuid_or_exit-IsArg W (cli.parse_uuid flags.minion))
          (λ minion. give-IsUsed W (minion ∷ []))

    -- The flag --minion is given, and is no uuid.
    pub bad_flag : Bool
    bad_flag = if str_eq flags.minion "" then false else no_uuid (cli.parse_uuid flags.minion)

    minions_with-IsArg : (id : String) → IsArg bad_flag (minions_with cli klient flags id)
    unfolding minions_with bad_flag
    minions_with-IsArg id = flag-IsArg (str_eq flags.minion "") id

    pub no_task_arg : List String → Bool
    no_task_arg [] = true
    no_task_arg (arg ∷ _) = no_uuid (cli.parse_uuid arg) || bad_flag

    -- What follows the parsing of the uuid of the task.
    found-IsUsage :
        (o : Option String) (rest : String → Act W (List Row)) (w : W)
        → ((id : String) → IsArg bad_flag (rest id))
        → IsUsage (no_uuid o || bad_flag) ((uuid_or_exit o >>= rest) w) w
    unfolding uuid_or_exit exit_with give no_uuid IsUsage ◌>>=◌
    found-IsUsage none rest w after_id = (invalid_uuid, refl)
    found-IsUsage (some id) rest w after_id = IsUsage-of bad_flag (rest id) w (after_id id)

    result_of-IsUsage :
        (args : List String) (rest : String → Act W (List Row)) (w : W)
        → ((id : String) → IsArg bad_flag (rest id))
        → IsUsage (no_task_arg args) ((first_of no_task args >>= λ arg. parse cli arg >>= rest) w) w
    unfolding first_of exit_with give no_task_arg parse ◌>>=◌ IsUsage
    result_of-IsUsage [] rest w after_id = (no_task, refl)
    result_of-IsUsage (arg ∷ _) rest w after_id = found-IsUsage (cli.parse_uuid arg) rest w after_id

    result-IsUsage :
        (w : W) → IsUsage (no_task_arg flags.args) (exec_result_command cli klient flags w) w
    unfolding exec_result_command first_arg result_rows
    result-IsUsage w = result_of-IsUsage flags.args _ w (λ id.
        IsArg-bind bad_flag (minions_with cli klient flags id) _ (minions_with-IsArg id)
          (λ ms. search used_laws))

    module _ (l : Local W) where
      -- The arguments and the flags with which a command cannot do anything.
      unfoldable pub is_misused : Name → W → Bool
      is_misused list w = false
      is_misused lastseen w = false
      is_misused info w = no_minion_arg cli flags.args
      is_misused classifier w = no_minion_arg cli flags.args
      is_misused queue w = no_minion_arg cli flags.args
      is_misused log w = no_minion_arg cli flags.args
      is_misused push w = no_arg flags.args
      is_misused report w = no_arg flags.args
      is_misused result w = no_task_arg flags.args
      is_misused apply w = no_arg l.flags.args
      is_misused graph w = no_arg l.flags.args
      is_misused serve w = lacks_repo l.flags (l.hostname w)

      table-IsUsage :
          (b : Bool) (a : Act W (List Row)) (w : W)
          → IsUsage b (a w) w
          → IsUsage b (printed table (a w)) w
      table-IsUsage b a w used = printed-IsUsage table b (a w) w used

      table-IsArg :
          (b : Bool) (a : Act W (List Row)) (w : W) → IsArg b a → IsUsage b (printed table (a w)) w
      table-IsArg b a w used = table-IsUsage b a w (IsUsage-of b a w used)

      -- A command exits with the code 64 exactly when an argument that it wants is missing, it wants a
      -- uuid and the text is none, or it is serve on a host whose name is known and no site repo is
      -- given; it has done nothing else then, neither on etcd nor otherwise.
      pub execute-IsUsage :
          (name : Name) (w : W) → IsUsage (is_misused name w) (execute name cli klient flags l w) w
      unfolding execute is_misused exec_serve_command
      execute-IsUsage list w =
          table-IsArg false (exec_list_command cli klient flags) w exec_list-IsArg
      execute-IsUsage lastseen w =
          table-IsArg false (exec_lastseen_command cli klient flags) w exec_lastseen-IsArg
      execute-IsUsage info w = table-IsArg _ (exec_info_command cli klient flags) w exec_info-IsArg
      execute-IsUsage classifier w =
          table-IsArg _ (exec_classifier_command cli klient flags) w exec_classifier-IsArg
      execute-IsUsage queue w =
          table-IsArg _ (exec_queue_command cli klient flags) w exec_queue-IsArg
      execute-IsUsage log w = table-IsArg _ (exec_log_command cli klient flags) w exec_log-IsArg
      execute-IsUsage push w =
          printed-IsUsage _ _ (exec_push_command cli klient flags w) w
            (IsUsage-of _ (exec_push_command cli klient flags) w push-IsArg)
      execute-IsUsage report w = table-IsArg _ (exec_report_command klient flags) w report-IsArg
      execute-IsUsage result w =
          table-IsUsage _ (exec_result_command cli klient flags) w (result-IsUsage w)
      execute-IsUsage apply w = apply-IsUsage l.sets l.host l.num_cpu l.flags w
      execute-IsUsage graph w = graph-IsUsage l.sets l.host l.num_cpu l.flags w
      execute-IsUsage serve w =
          serve-IsUsage l.sets l.host l.num_cpu l.flags l.site l.registry (l.hostname w) w

-- ===== src/Samples/Minions.antt =====
-- A small etcd, with one directory for the queue, and a minion and a client that use it.
use gru.Prelude.{
  ℕ, String, ◌≡◌, refl, sym, ◌∙◌, ap, subst, Bool, true, false, Option, none, some, List, [], ◌∷◌,
  ◌++◌, Map, lookup, insert, lookup-insert, eq_refl, arith, str_eq, Option-cases, inl, inr,
}
use gru.Errors.{Error, etcd, ok}
use gru.Task.{Task, new_task}
use gru.Utils.Git.{GitRepo}
use gru.Minion.{Event, Host, Leaf, Directory, Reply, found}
use gru.Minion.Keys.{Minion, new_minion, save_task_result, join, etcd_minion_space}
use gru.Catalog.{Config}
use gru.Minion.Queue.{check_queue, listen, accepted, forwarded}
use gru.Minion.Queue.Runner.{IsQueued, listen-IsQueued}
use gru.Minion.Queue.Contract.{IsBacklog, check_queue-IsBacklog, decoded}
use gru.Client.{minion_task_result, minion_submit_task, submit_to}
use gru.Client.Search.{Searching, searching, take, look, Reach, here, next, Probe, appended}
use gru.Client.Search.Contract.{count, wanted, IsStable, search-count}
use gru.Client.Log.{
  KeepsValues, AppendsInOrder, RoundTrips, nodes_of, queue_of, minion_task_result-save,
  check_queue-submit,
}

pub record World : Type 0 where
  pub values : Map String
  pub queue : List Leaf

abbrev pub a_task : Task
unfolding new_task
a_task = new_task "7" "site" "master"

abbrev pub get : String → World → Reply × World
get k w = elim (lookup k w.values) [
  | some v ↦ (found (record { value = v; nodes = [] }), w)
  | none ↦ (found (record { value = ""; nodes = w.queue }), w)
]

abbrev pub set : String → String → World → Option Error × World
set k v w = (none, record w { values = insert k v w.values })

abbrev pub create_in_order : String → String → World → Option Error × World
create_in_order k v w = elim (lookup k w.values) [
  | some _ ↦ (some (etcd 104), w)
  | none ↦ (none, record w { queue = w.queue ++ (record { key = k; value = v } ∷ []) })
]

abbrev pub host : Host World
host = record {
  kapi_get = get;
  kapi_get_sorted = get;
  kapi_set = set;
  kapi_set_hour = set;
  kapi_delete = λ k w. record w { queue = [] };
  kapi_create_in_order = create_in_order;
  marshal_task = λ t. t.id;
  unmarshal_task = λ s. some a_task;
  marshal_classifier = λ c. c.value;
  unmarshal_classifier = λ s. none;
  exec = λ program args w. ("", none, w);
  path_missing = λ path w. true;
  now = λ w. 12;
  trim = λ s. s;
  format_int = λ n. "12";
  parse_int = λ s. none;
  base = λ s. s;
  parse_uuid = λ s. some s;
  to_lower = λ s. s;
  equal_fold = str_eq;
  message = λ e. "error";
  do_file = λ config w. ([], none, w);
  schedule = λ w n. 0;
  log_text = λ lines. "done";
}

abbrev pub repo : GitRepo
repo = record { path = "/site"; upstream = "git://site"; git = "git" }

abbrev pub minion : Minion
unfolding new_minion join
minion = new_minion "web" "1" repo 1

abbrev pub empty : World
empty = record { values = []; queue = [] }

abbrev site_config : Config
site_config = record { mod_name = "site"; dry_run = false; site_repo = "/site"; concurrency = 1 }

check_queue-IsBacklog_example :
    IsBacklog host (host.kapi_get_sorted minion.queue_dir empty) (check_queue host minion empty)
check_queue-IsBacklog_example = check_queue-IsBacklog host minion empty

host-KeepsValues : KeepsValues host
unfolding KeepsValues
host-KeepsValues k v w w₁ e =
    let at : lookup k (insert k v w.values) ≡ some v =
      ground (arith, lookup-insert k k v w.values, eq_refl k) in
    (
      w₁,
      subst (λ (x : World). get k x ≡ (found (record { value = v; nodes = [] }), x))
          (ap (λ p. p.1) e) (rw (at, get) refl),
    )

host-AppendsInOrder : AppendsInOrder host
unfolding AppendsInOrder nodes_of
host-AppendsInOrder k v w w₁ e = elim (Option-cases (lookup k w.values)) [
  | inr (u, taken) ↦ absurd (ground (arith, e, taken))
  | inl free ↦
      let new : Leaf = record { key = k; value = v } in
      let dir : Directory = record { value = ""; nodes = w.queue ++ (new ∷ []) } in
      let same : record w { queue = w.queue ++ (new ∷ []) } ≡ w₁ = ground (arith, e, free) in
      (
        new,
        dir,
        w₁,
        refl,
        rw (free, get, nodes_of) refl,
        subst (λ (x : World). get k x ≡ (found dir, x)) same (rw (free, get) refl),
      )
]

a_task-RoundTrips : RoundTrips host a_task
unfolding RoundTrips
a_task-RoundTrips = refl

abbrev log_key : String
log_key = "/gru/minion/1/log/7"

minion_task_result-save_example :
    (w : World) × (minion_task_result host "1" "7" (record empty { values = (log_key, "7") ∷ [] })
      ≡ (ok a_task, w))
unfolding save_task_result new_minion join insert new_task
minion_task_result-save_example =
    minion_task_result-save host "web" "1" repo 1 host-KeepsValues a_task empty
      (record empty { values = (log_key, "7") ∷ [] }) refl a_task-RoundTrips

check_queue-submit_example :
    (w : World) × (check_queue host
        (new_minion "web" "1" repo 1)
        (record empty { queue = record { key = "/gru/minion/1/queue"; value = "7" } ∷ [] })
      ≡ (
        ok (
            decoded host
              (queue_of host "web" "1" repo 1 (host.kapi_get (join etcd_minion_space "1") empty).1)
            ++ (a_task ∷ [])),
        w,
      ))
unfolding minion_submit_task submit_to join lookup new_task
check_queue-submit_example =
    check_queue-submit host "web" "1" repo 1 host-AppendsInOrder a_task empty
      (record empty { queue = record { key = "/gru/minion/1/queue"; value = "7" } ∷ [] }) refl
      a_task-RoundTrips

-- A lookup that finds the minion "1" alone.
abbrev finds_first : Probe ℕ
finds_first u w = (str_eq u "1", w)

abbrev is_first : String → Bool
is_first u = str_eq u "1"

-- The world is the first one.
abbrev IsStart : ℕ → Type 0
IsStart w = w ≡ 0

finds_first-IsStable : IsStable finds_first is_first IsStart
unfolding IsStable
finds_first-IsStable u w b w₁ start e = (sym (ap (λ p. p.0) e), sym (ap (λ p. p.1) e) ∙ start)

abbrev ended : Searching ℕ
ended = record { queue = []; held = []; result = "1" ∷ []; world = 0 }

one_search : Reach finds_first (searching ("1" ∷ []) 0) ended
unfolding searching appended
one_search =
    next _ _ _ (next _ _ _ (here _) (take "1" [] [] [] 0 (omega arith)))
      (look "1" [] [] [] [] 0 0 true refl)

search-count_example : count "1" ("1" ∷ []) ≡ count "1" (wanted is_first ("1" ∷ []))
search-count_example =
    search-count finds_first is_first IsStart finds_first-IsStable ("1" ∷ []) 0 ended refl
      one_search refl refl "1"

abbrev created : Event
created = record { action = "create"; node = record { key = "/queue/7"; value = "7" } }

abbrev queued_task : Task
queued_task = record a_task { state = "queued"; time_received = 12 }

created_sent : (listen host minion created empty).0 ≡ some queued_task
unfolding listen accepted forwarded save_task_result new_task new_minion join
created_sent = refl

listen-IsQueued_example : IsQueued host minion queued_task (listen host minion created empty).1
listen-IsQueued_example = listen-IsQueued host minion created empty queued_task created_sent

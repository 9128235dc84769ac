-- ===== src/Samples/Catalogs.antt =====
-- A catalog of two resources of which the second requires the first; the world counts the changes.
use gru.Prelude.{
  ℕ, suc, ◌<◌, ◌≡◌, refl, ap, eq_iff, String, Bool, true, false, none, some, List, [], ◌∷◌, arith,
  lookup, insert, remove, is_some, mem_str, ◌||◌, str_eq,
}
use gru.Errors.{failed_dependency, other, ok, err, panic}
use gru.Graph.Heap.{blank, new_node, add_node, add_edge, get_node}
use gru.Graph.Sets.{list_set}
use gru.Graph.Sort.{sort, sort_loop, remove_ready, find_ready, add_all, strip_edges}
use gru.Graph.Reversed.{reversed, copy_nodes, turn_all, turn_edges}
use gru.Resource.{Resource, Method}
use gru.Resource.Collection.{
  create_collection, add_resources, make_nodes, connect, connect_all, dependency_graph,
}
use gru.Catalog.{Config, Catalog, new_catalog, loaded}
use gru.Utils.Strings.{new_list, contains, is_in_list}
use gru.Catalog.Run.Schedule.{run, run-IsDone}
use gru.Catalog.Execute.{
  Shared, execute, process, item_of, initialize_and_act, evaluate_and_act, act_on, close_after,
  has_failed_dependencies, act, finish, plan, sync_properties, run_triggers,
}
use gru.Catalog.Execute.Safety.{AllProcessed, process-safe, Returns, AllReturn}
use gru.Catalog.Execute.Effects.{
  with_effects, has_failed, execute_dry_run, execute_failed_dependency,
}
use gru.Catalog.Load.{Loaded, arrange, build_graphs, set_fields}
use gru.Catalog.Load.Runnable.{loaded_run_alive, loaded_run_done}
use gru.Catalog.Run.{
  Running, main, worker, Reach, here, next, start, dispatch, process_in, IsDone, lane,
}
use gru.Catalog.Run.Invariant.{names}

abbrev pub counted : Method ℕ
counted w = some (none, suc w)

abbrev pub nothing : Method ℕ
nothing w = some (none, w)

abbrev pub resource : String → List String → Bool → Resource ℕ
resource id dependencies is_concurrent = record {
  id = id;
  initialize = nothing;
  close = nothing;
  validate = nothing;
  dependencies = dependencies;
  present_states = "present" ∷ [];
  absent_states = "absent" ∷ [];
  is_concurrent = is_concurrent;
  evaluate = λ w. some (record { current = "absent"; want = "present" }, none, w);
  create = counted;
  delete = counted;
  properties = [];
  subscribed_to = [];
}

resource-Returns :
    (id : String) (dependencies : List String) (is_concurrent : Bool)
    → Returns (resource id dependencies is_concurrent)
resource-Returns id dependencies is_concurrent = record {
  validate = λ w e. cc e;
  initialize = λ w e. cc e;
  evaluate = λ w e. cc e;
  create = λ w e. cc e;
  delete = λ w e. cc e;
  close = λ w e. cc e;
  properties = tt;
}

abbrev pub first : Resource ℕ
first = resource "first" [] false

abbrev pub second : Resource ℕ
second = resource "second" ("first" ∷ []) true

abbrev config_of : Bool → Config
config_of dry_run = record { mod_name = "site"; dry_run = dry_run; site_repo = ""; concurrency = 1 }

abbrev two : Catalog ℕ
two = record (new_catalog (config_of false)) { unsorted = second ∷ first ∷ [] }

abbrev loaded_two : Loaded ℕ
loaded_two = elim (arrange list_set two blank) [
  | ok l ↦ l
  | err e ↦ record { catalog = two; heap = blank; line = loaded 0 }
  | panic ↦ record { catalog = two; heap = blank; line = loaded 0 }
]

two-loads : arrange list_set two blank ≡ ok loaded_two
unfolding arrange build_graphs set_fields create_collection add_resources dependency_graph
    make_nodes connect_all connect reversed copy_nodes turn_all turn_edges sort sort_loop
    remove_ready find_ready add_all strip_edges lookup insert remove new_node add_node add_edge
    get_node
two-loads = refl

abbrev begun : Shared ℕ
begun = record { world = 0; status = []; log = [] }

two_order : names loaded_two.heap loaded_two.catalog.sorted ≡ "first" ∷ "second" ∷ []
unfolding arrange build_graphs set_fields create_collection add_resources dependency_graph
    make_nodes connect_all connect reversed copy_nodes turn_all turn_edges sort sort_loop
    remove_ready find_ready add_all strip_edges lookup insert remove new_node add_node add_edge
    get_node
two_order = refl

abbrev at_second : Running ℕ
at_second =
    dispatch loaded_two.heap loaded_two.catalog 1 (0 ∷ [])
      (start loaded_two.heap loaded_two.catalog begun)

abbrev all_sent : Running ℕ
all_sent = dispatch loaded_two.heap loaded_two.catalog 0 [] at_second

abbrev ended : Running ℕ
ended = process_in loaded_two.heap loaded_two.catalog second (record all_sent { queue = [] })

two-reaches :
    Reach loaded_two.heap loaded_two.catalog (start loaded_two.heap loaded_two.catalog begun) ended
    × IsDone loaded_two.heap loaded_two.catalog ended
    × (ended.shared.world ≡ 2)
unfolding arrange build_graphs set_fields create_collection add_resources dependency_graph
    make_nodes connect_all connect reversed copy_nodes turn_all turn_edges sort sort_loop
    remove_ready find_ready add_all strip_edges lookup insert remove new_node add_node add_edge
    get_node dispatch process_in lane process execute close_after has_failed_dependencies
    initialize_and_act evaluate_and_act act_on act finish plan new_list contains is_in_list
    sync_properties run_triggers
two-reaches = (
  next
      (next (next here (main 1 (0 ∷ []) refl refl (omega arith)))
        (main 0 [] refl refl (omega arith)))
      (worker [] [] second refl refl (omega arith)),
  record { all_sent = refl; all_processed = λ busy. refl },
  refl,
)

one_worker : 0 < loaded_two.catalog.config.concurrency
unfolding arrange build_graphs set_fields create_collection add_resources dependency_graph
    make_nodes connect_all connect reversed copy_nodes turn_all turn_edges sort sort_loop
    remove_ready find_ready add_all strip_edges lookup insert remove new_node add_node add_edge
    get_node
one_worker = omega arith

two-AllReturn : AllReturn loaded_two.catalog.collection
unfolding arrange build_graphs set_fields create_collection add_resources dependency_graph
    make_nodes connect_all connect reversed copy_nodes turn_all turn_edges sort sort_loop
    remove_ready find_ready add_all strip_edges lookup insert remove new_node add_node add_edge
    get_node
two-AllReturn k r at = ground (arith, at, resource-Returns "second" ("first" ∷ []) true)

loaded_run_alive_example : ended.panicked ≡ false
loaded_run_alive_example =
    loaded_run_alive list_set two blank loaded_two two-loads two-AllReturn begun ended two-reaches.0

loaded_run_done_example : is_some (lookup "second" ended.shared.status) ≡ true
loaded_run_done_example =
    loaded_run_done list_set two blank loaded_two two-loads two-AllReturn begun ended two-reaches.0
      one_worker two-reaches.1 "second" (ap (mem_str "second") two_order)

run-IsDone_example :
    Reach loaded_two.heap loaded_two.catalog
      (start loaded_two.heap loaded_two.catalog begun)
      (run loaded_two.heap loaded_two.catalog (λ n. n) begun)
    × IsDone loaded_two.heap loaded_two.catalog
        (run loaded_two.heap loaded_two.catalog (λ n. n) begun)
run-IsDone_example =
    run-IsDone loaded_two.heap loaded_two.catalog (λ n. n) begun one_worker
      (loaded_run_alive list_set two blank loaded_two two-loads two-AllReturn begun)

execute_dry_run_example :
    execute (config_of true) (with_effects first nothing counted [] []) begun
    ≡ execute (config_of true) first begun
execute_dry_run_example = execute_dry_run (config_of true) first nothing counted [] [] begun refl

abbrev broken : Shared ℕ
broken = record begun { status = ("first", item_of false (some (other "broken"))) ∷ [] }

broken-AllProcessed : AllProcessed broken.status ("first" ∷ [])
unfolding lookup
broken-AllProcessed d m = ground (arith, m, eq_iff "first" d)

execute_failed_dependency_example :
    (f : String) × (mem_str f ("first" ∷ []) ≡ true)
    × (has_failed broken.status f ≡ true)
    × (execute (config_of false) second broken
        ≡ (some (item_of false (some (failed_dependency f))), broken))
unfolding lookup
execute_failed_dependency_example =
    execute_failed_dependency (config_of false) second broken "first" broken-AllProcessed refl refl

process-safe_example :
    (s : Shared ℕ) × (process (config_of false) second broken ≡ some s)
    × ((k : String)
        → is_some (lookup k s.status) ≡ (str_eq "second" k || is_some (lookup k broken.status)))
process-safe_example =
    process-safe second (config_of false) broken (resource-Returns "second" ("first" ∷ []) true)
      broken-AllProcessed (λ d m. ground (arith, m))

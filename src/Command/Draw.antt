-- ===== src/Command/Draw.antt =====
-- gructl/command/graph.go: the graph of the resources of a module, its reversal, and its cycles.
use gru.Prelude.{String, true, Option, none, some, List, [], ◌∷◌}
use gru.Errors.{Error, Result, ok, err, panic, circular_dependency, no_module_name}
use gru.Graph.Heap.{Heap, Graph, new, add_node, blank}
use gru.Graph.Dot.{Dot, as_dot}
use gru.Graph.Sets.{MapSet}
use gru.Graph.Sort.{Outcome, sorted, circular, out_of_fuel, sort}
use gru.Graph.Reversed.{reversed}
use gru.Resource.{Resource}
use gru.Resource.Collection.{Collection, create_collection, dependency_graph}
use gru.Catalog.{Config, new_catalog, add}
use gru.Minion.{Host}
use gru.Command.{Exit, done, exits, crashed}
use gru.Command.Local.{LocalFlags}

-- The graphs that are printed, and how the command ends.
abbrev pub Drawing : Type 0
Drawing = List Dot × Exit (Unit {0})

-- What follows `Sort`: the nodes that are left at a cycle make up a graph of their own.
unfoldable pub draw_cycle : Heap → Outcome → Drawing
unfolding as_dot
draw_cycle h (sorted ps) = ([], done tt)
draw_cycle h (circular ps) =
    (as_dot "circular" h (add_node h new ps) ∷ [], exits circular_dependency 1)
draw_cycle h out_of_fuel = ([], crashed)

-- What follows the reversal.
unfoldable pub draw_reversed : MapSet → Dot → Graph → Option (Graph × Heap) → Drawing
unfolding draw_cycle
draw_reversed sets dot g none = (dot ∷ [], crashed)
draw_reversed sets dot g (some (back, h)) =
    let sorting = sort sets h g.nodes in
    let (dots, exit) = draw_cycle sorting.heap sorting.outcome in
    (dot ∷ as_dot "reversed" h back ∷ dots, exit)

unfoldable pub draw : MapSet → Result (Graph × Heap) → Drawing
unfolding draw_reversed
draw sets (ok (g, h)) = draw_reversed sets (as_dot "resources" h g) g (reversed h g)
draw sets (err e) = ([], exits e 1)
draw sets panic = ([], crashed)

module _ (sets : MapSet) {W : Type 0} (host : Host W) where
  unfoldable pub draw_collection : Collection W × Option Error → Drawing
  unfolding draw
  draw_collection (collection, some e) = ([], exits e 1)
  draw_collection (collection, none) = draw sets (dependency_graph collection blank)

  unfoldable pub draw_module : Config → List (Option (Resource W)) × Option Error × W → Drawing × W
  unfolding draw_collection
  draw_module config (rs, some e, w) = (([], exits e 1), w)
  draw_module config (rs, none, w) =
      (draw_collection (create_collection (add (new_catalog config) rs).unsorted), w)

  abbrev pub graph_config : LocalFlags → String → Config
  graph_config flags main = record {
    mod_name = main;
    dry_run = true;
    site_repo = flags.siterepo;
    concurrency = 0;
  }

  unfoldable pub exec_graph_command : LocalFlags → W → Drawing × W
  unfolding draw_module
  exec_graph_command flags w = elim flags.args [
    | [] ↦ (([], exits no_module_name 64), w)
    | main ∷ _ ↦ let config = graph_config flags main in draw_module config (host.do_file config w)
  ]

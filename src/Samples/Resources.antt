-- ===== src/Samples/Resources.antt =====
-- Collections, validation, packages and shell commands at concrete inputs.
use gru.Prelude.{ℕ, List, [], ◌∷◌}
use gru.Graph.Heap.{blank}
use gru.Resource.{Resource}
use gru.Resource.Collection.{dependency_graph, create_collection}
use gru.Resource.Collection.Contract.{GraphOf, dependency_graph-GraphOf}
use gru.Resource.Collection.Ids.{Added, create_collection-Added}
use gru.Samples.Catalogs.{first, second}

abbrev pair : List (Resource ℕ)
pair = first ∷ second ∷ []

create_collection-Added_example : Added pair [] (create_collection pair)
create_collection-Added_example = create_collection-Added pair

dependency_graph-GraphOf_example :
    GraphOf (create_collection pair).0 (dependency_graph (create_collection pair).0 blank)
dependency_graph-GraphOf_example = dependency_graph-GraphOf (create_collection pair).0 blank

-- ===== src/Resource/Collection/Contract.antt =====
-- What `DependencyGraph` promises.
use gru.Prelude.{
  ℕ, String, ◌≡◌, refl, Bool, true, false, ◌||◌, ◌&&◌, some, List, [], ◌∷◌, arith, ==_iff, has_key,
  Map, lookup, is_some, str_eq, elem, mem_str, inl, inr, Option-cases, ap, IsMap, has_key-insert,
  is_some-lookup,
}
use gru.Errors.{Result, ok, err, panic, ◌>>=◌}
use gru.Graph.Heap.{Heap, Graph, name_of, edges_of, values, new_node}
use gru.Graph.Build.{
  Building, build_step, start, IsBuilding, IsBuilt, build_step-IsBuilding, build_step-IsBuilt,
  start-IsBuilding, start-IsBuilt, is_at-lookup, lookup_of_elem, elem_of_lookup, IsDistinct-of-map,
}
use gru.Graph.Sort.Invariant.{IsKeyed-cong}
use gru.Graph.Sort.Rounds.{IsGraph}
use gru.Graph.Reversed.Contract.{IsWhole}
use gru.Resource.Collection.{Collection, keys, make_nodes, connect_all, dependency_graph}
use gru.Resource.Collection.Connect.{
  names_node, wanted, Gains, AllPresent, IsMissing, AllConnected, connect_all-AllConnected,
}

module _ (name : ℕ → String) (nodes : Map ℕ)
    (named : (k : String) (q : ℕ) → lookup k nodes ≡ some q → name q ≡ k) where
  names_node-mem_str :
      (b : String) (q : ℕ) (ds : List String)
      → lookup b nodes ≡ some q
      → names_node nodes ds q ≡ mem_str b ds
  names_node-mem_str b q [] e = refl
  names_node-mem_str b q (d ∷ ds) e =
      ground (arith, is_at-lookup name nodes named b d q e, names_node-mem_str b q ds e)

names_node_inside :
    (nodes : Map ℕ) (q : ℕ) (ds : List String)
    → names_node nodes ds q ≡ true
    → elem q (values nodes) ≡ true
names_node_inside nodes q [] e = absurd (ground (arith, e))
names_node_inside nodes q (d ∷ ds) e = elim (Option-cases (lookup d nodes)) [
  | inl gone ↦ ground (arith, gone, e, names_node_inside nodes q ds)
  | inr (r, here) ↦ ground (
    arith,
    here,
    e,
    names_node_inside nodes q ds,
    elem_of_lookup nodes d r here,
    ==_iff r q,
    ap (λ a. elem a (values nodes)) {x = r} {y = q},
  )
]

module _ {W : Type 0} where
  make_nodes-IsBuilding :
      (h : Heap) (c : Collection W) (b : Building) → IsBuilding h b → IsBuilding h (make_nodes c b)
  unfolding make_nodes
  make_nodes-IsBuilding h [] b w = w
  make_nodes-IsBuilding h ((id, r) ∷ c) b w =
      make_nodes-IsBuilding h c (build_step id b) (build_step-IsBuilding h id b w)

  make_nodes-IsBuilt : (c : Collection W) (b : Building) → IsBuilt b → IsBuilt (make_nodes c b)
  unfolding make_nodes
  make_nodes-IsBuilt [] b w = w
  make_nodes-IsBuilt ((id, r) ∷ c) b w =
      make_nodes-IsBuilt c (build_step id b) (build_step-IsBuilt id b w)

  has_key-make_nodes :
      (c : Collection W) (b : Building) (k : String)
      → has_key k (make_nodes c b).table ≡ (has_key k c || has_key k b.table)
  unfolding make_nodes new_node
  has_key-make_nodes [] b k = refl
  has_key-make_nodes ((id, r) ∷ c) b k =
      ground
        (arith, has_key-make_nodes c (build_step id b) k, has_key-insert id k b.heap.next b.table)

  -- Some resource `a` of the collection requires `b` or subscribes to it.
  abbrev pub needs : Collection W → String → String → Bool
  needs [] a b = false
  needs ((id, r) ∷ c) a b =
      str_eq id a && (mem_str b r.dependencies || mem_str b (keys r.subscribed_to)) || needs c a b

  -- `g` has a node for each resource, and its edges are what the resources need.
  pub record IsGraphOf (c : Collection W) (g : Graph) (h : Heap) : Type 0 where
    pub graph : IsGraph h g.nodes
    pub whole : IsWhole h g.nodes
    pub map : IsMap g.nodes
    pub names : (k : String) → has_key k g.nodes ≡ has_key k c
    pub edges :
        (a b : String) (p q : ℕ)
        → lookup a g.nodes ≡ some p
        → lookup b g.nodes ≡ some q
        → elem q (edges_of h p) ≡ needs c a b

  wanted-needs :
      (name : ℕ → String) (nodes : Map ℕ)
      → ((k : String) (q : ℕ) → lookup k nodes ≡ some q → name q ≡ k)
      → (a b : String) (p q : ℕ) (c : Collection W) → lookup a nodes ≡ some p
      → lookup b nodes ≡ some q
      → wanted nodes c p q ≡ needs c a b
  wanted-needs name nodes named a b p q [] ea eb = refl
  wanted-needs name nodes named a b p q ((id, r) ∷ c) ea eb = ground (
    arith,
    is_at-lookup name nodes named a id p ea,
    names_node-mem_str name nodes named b q r.dependencies eb,
    names_node-mem_str name nodes named b q (keys r.subscribed_to) eb,
    wanted-needs name nodes named a b p q c ea eb,
  )

  wanted_inside :
      (nodes : Map ℕ) (p q : ℕ) (c : Collection W)
      → wanted nodes c p q ≡ true
      → elem q (values nodes) ≡ true
  wanted_inside nodes p q [] e = absurd (ground (arith, e))
  wanted_inside nodes p q ((id, r) ∷ c) e = ground (
    arith,
    e,
    names_node_inside nodes q r.dependencies,
    names_node_inside nodes q (keys r.subscribed_to),
    wanted_inside nodes p q c,
  )

  -- The outcome for a collection.
  abbrev pub GraphOf : Collection W → Result (Graph × Heap) → Type 0
  GraphOf c (ok (g, h)) = AllPresent c c × IsGraphOf c g h
  GraphOf c (err e) = IsMissing c c e
  GraphOf c panic = ⊥

  module _ (c : Collection W) (h : Heap) where
    abbrev made : Building
    made = make_nodes c (start h)

    new_nodes : IsBuilding h made
    new_nodes = make_nodes-IsBuilding h c (start h) (start-IsBuilding h)

    in_graph : IsBuilt made
    in_graph = make_nodes-IsBuilt c (start h) (start-IsBuilt h)

    made_names : (k : String) → has_key k made.table ≡ has_key k c
    made_names k = ground (arith, has_key-make_nodes c (start h) k)

    made_ids : (k : String) → is_some (lookup k c) ≡ is_some (lookup k made.table)
    made_ids k = ground (arith, is_some-lookup k c, is_some-lookup k made.table, made_names k)

    named : (k : String) (q : ℕ) → lookup k made.table ≡ some q → name_of made.heap q ≡ k
    named k q e = (new_nodes.fresh k q e).2

    bare : (k : String) (q : ℕ) → lookup k made.table ≡ some q → edges_of made.heap q ≡ []
    bare k q e = (new_nodes.fresh k q e).3

    connected-IsGraphOf :
        (h' : Heap) → Gains made.heap h' (wanted made.table c) → IsGraphOf c made.graph h'
    connected-IsGraphOf h' g =
        let ns = made.graph.nodes in
        let same = new_nodes.same in
        let keyed = IsKeyed-cong made.heap h' ns g.names in_graph.keyed in
        record {
          graph = record { keyed = keyed; distinct = IsDistinct-of-map h' ns keyed in_graph.map };
          whole = record {
            keyed = keyed;
            below = rw g.next in_graph.below;
            closed = λ p q m e.
                let at = lookup_of_elem made.heap ns p in_graph.keyed in_graph.map m in
                rw same (
                  wanted_inside made.table p q c
                    (ground (arith, e, g.edges p q, bare (name_of made.heap p) p (rw same at at))));
          };
          map = in_graph.map;
          names = λ k. rw same (made_names k);
          edges = λ a b p q ea eb.
              let in_a = rw same at ea in
              let in_b = rw same at eb in
              ground (
                arith,
                g.edges p q,
                bare a p in_a,
                wanted-needs (name_of made.heap) made.table named a b p q c in_a in_b,
              );
        }

  -- If every id that a resource requires or subscribes to is in the collection, the graph has a
  -- node for each resource and an edge exactly for each such need. Otherwise the result is an
  -- error that names a resource and an id that it lacks. No nil node is met.
  pub dependency_graph-GraphOf : (c : Collection W) (h : Heap) → GraphOf c (dependency_graph c h)
  unfolding dependency_graph
  dependency_graph-GraphOf c h =
      let w =
        connect_all-AllConnected c (made c h).table (made_ids c h) c (made c h).heap
          (λ id m. ground (arith, made_names c h id, is_some-lookup id (made c h).table, m)) in
      finish (connect_all c (made c h).table c (made c h).heap) w
    where
      finish :
          (r : Result Heap)
          → AllConnected c (made c h).table (made_ids c h) c (made c h).heap r
          → GraphOf c (r >>= λ h'. ok ((made c h).graph, h'))
      finish (ok h') w = (w.0, connected-IsGraphOf c h h' w.1)
      finish (err e) w = w
      finish panic w = w

-- ===== src/Command/Main/Catalogs.antt =====
-- The wrong use of the commands that load a catalog or start a minion.
use gru.Prelude.{
  ℕ, String, Bool, true, false, Option, none, some, List, [], ◌∷◌, ◌≢◌, refl, arith, str_eq,
  Bool-cases, inl, inr, if◌then◌else◌,
}
use gru.Errors.{Error, Result, ok, err, panic, no_module_name, missing_site_repo}
use gru.Graph.Heap.{Heap, Graph, blank}
use gru.Graph.Dot.{Dot, as_dot}
use gru.Graph.Sets.{MapSet}
use gru.Graph.Sort.{Outcome, sorted, circular, out_of_fuel, sort}
use gru.Graph.Reversed.{reversed}
use gru.Resource.{Resource}
use gru.Resource.Collection.{Collection, create_collection, dependency_graph}
use gru.Classifier.{Registry}
use gru.Catalog.{Config, new_catalog, add}
use gru.Minion.{Host}
use gru.Minion.Keys.{Minion, Site, new_etcd_minion}
use gru.Minion.Runs.{CatalogRun, load_failed, ran, run_catalog}
use gru.Minion.Services.{Services, start}
use gru.Command.{Exit, done, exits, crashed}
use gru.Command.Local.{
  LocalFlags, applied, apply_config, exec_apply_command, workers, waiting, served, serve_as,
}
use gru.Command.Draw.{
  Drawing, draw_cycle, draw_reversed, draw, draw_collection, draw_module, graph_config,
  exec_graph_command,
}
use gru.Command.Main.{Output, logged, printed, shown, begun}
use gru.Command.Main.Used.{code_of, IsUsage}

-- There is no argument; there is no uuid in the text.
unfoldable pub no_arg : List String → Bool
no_arg [] = true
no_arg (arg ∷ _) = false

unfoldable pub no_uuid : Option String → Bool
no_uuid none = true
no_uuid (some u) = false

-- The name of the host is known, and no site repo is given.
unfoldable pub lacks_repo : LocalFlags → String × Option Error → Bool
lacks_repo flags (hostname, some e) = false
lacks_repo flags (hostname, none) = str_eq flags.siterepo ""

-- A drawing that does not end with the code 64.
IsDrawn : Drawing → Type 0
IsDrawn d = code_of (d.1, tt {0}) ≢ 64

draw_cycle-IsDrawn : (h : Heap) (o : Outcome) → IsDrawn (draw_cycle h o)
unfolding draw_cycle IsDrawn code_of
draw_cycle-IsDrawn h (sorted ps) e = omega (arith, e)
draw_cycle-IsDrawn h (circular ps) e = omega (arith, e)
draw_cycle-IsDrawn h out_of_fuel e = omega (arith, e)

module _ (sets : MapSet) where
  draw_reversed-IsDrawn :
      (dot : Dot) (g : Graph) (o : Option (Graph × Heap)) → IsDrawn (draw_reversed sets dot g o)
  unfolding draw_reversed IsDrawn code_of
  draw_reversed-IsDrawn dot g none e = omega (arith, e)
  draw_reversed-IsDrawn dot g (some (back, h)) e =
      draw_cycle-IsDrawn (sort sets h g.nodes).heap (sort sets h g.nodes).outcome e

  draw-IsDrawn : (r : Result (Graph × Heap)) → IsDrawn (draw sets r)
  unfolding draw IsDrawn code_of
  draw-IsDrawn (ok (g, h)) e = draw_reversed-IsDrawn (as_dot "resources" h g) g (reversed h g) e
  draw-IsDrawn (err e₁) e = omega (arith, e)
  draw-IsDrawn panic e = omega (arith, e)

module _ {W : Type 0} where
  pub printed-IsUsage :
      {A : Type 0} (f : A → Output W) (b : Bool) (p : Exit A × W) (w : W)
      → IsUsage b p w
      → IsUsage b (printed f p) w
  unfolding printed IsUsage code_of
  printed-IsUsage f true p w (e, ends) = (e, rw ends refl)
  printed-IsUsage f false (done a, w₁) w used = used
  printed-IsUsage f false (exits e code, w₁) w used = used
  printed-IsUsage f false (crashed, w₁) w used = used

  shown-IsUsage : (d : Drawing) (w v : W) → IsDrawn d → IsUsage false (shown (d, w)) v
  unfolding shown IsUsage code_of IsDrawn
  shown-IsUsage (dots, done x) w v used h = omega (arith, h)
  shown-IsUsage (dots, exits e code) w v used h = used h
  shown-IsUsage (dots, crashed) w v used h = omega (arith, h)

  module _ (sets : MapSet) (host : Host W) (num_cpu : ℕ) (flags : LocalFlags) where
    applied-IsUsage : (p : CatalogRun × W) (w : W) → IsUsage false (printed logged (applied p)) w
    unfolding applied printed IsUsage code_of
    applied-IsUsage (load_failed e, w₁) w h = omega (arith, h)
    applied-IsUsage (ran lines, w₁) w h = omega (arith, h)
    applied-IsUsage (CatalogRun.crashed, w₁) w h = omega (arith, h)

    apply_on-IsUsage :
        (args : List String) (w : W)
        → IsUsage
            (no_arg args)
            (printed logged (elim args [
              | [] ↦ (exits no_module_name 64, w)
              | main ∷ _ ↦
                  applied (run_catalog sets host (apply_config sets host num_cpu flags main) w)
            ]))
            w
    unfolding no_arg printed IsUsage
    apply_on-IsUsage [] w = (no_module_name, refl)
    apply_on-IsUsage (main ∷ more) w =
        applied-IsUsage (run_catalog sets host (apply_config sets host num_cpu flags main) w) w

    pub apply-IsUsage :
        (w : W)
        → IsUsage
            (no_arg flags.args)
            (printed logged (exec_apply_command sets host num_cpu flags w))
            w
    unfolding exec_apply_command
    apply-IsUsage w = apply_on-IsUsage flags.args w

    collection-IsDrawn : (p : Collection W × Option Error) → IsDrawn (draw_collection sets host p)
    unfolding draw_collection IsDrawn code_of
    collection-IsDrawn (c, some e₁) e = omega (arith, e)
    collection-IsDrawn (c, none) e = draw-IsDrawn sets (dependency_graph c blank) e

    module-IsUsage :
        (config : Config) (p : List (Option (Resource W)) × Option Error × W) (w : W)
        → IsUsage false (shown (draw_module sets host config p)) w
    unfolding draw_module shown IsUsage code_of
    module-IsUsage config (rs, some e₁, w₁) w h = omega (arith, h)
    module-IsUsage config (rs, none, w₁) w h =
        let p = create_collection (add (new_catalog config) rs).unsorted in
        shown-IsUsage (draw_collection sets host p) w₁ w (collection-IsDrawn p) h

    graph_on-IsUsage :
        (args : List String) (w : W)
        → IsUsage
            (no_arg args)
            (shown (elim args [
              | [] ↦ (([], exits no_module_name 64), w)
              | main ∷ _ ↦
                  let config = graph_config sets host flags main in
                  draw_module sets host config (host.do_file config w)
            ]))
            w
    unfolding no_arg shown IsUsage
    graph_on-IsUsage [] w = (no_module_name, refl)
    graph_on-IsUsage (main ∷ more) w =
        let config = graph_config sets host flags main in
        module-IsUsage config (host.do_file config w) w

    pub graph-IsUsage :
        (w : W) → IsUsage (no_arg flags.args) (shown (exec_graph_command sets host flags w)) w
    unfolding exec_graph_command
    graph-IsUsage w = graph_on-IsUsage flags.args w

    module _ (site : Site W) (registry : Registry W) where
      waiting-IsUsage :
          (m : Minion) (r : Result (Services W)) (w : W)
          → IsUsage false (begun w (waiting sets host num_cpu m r)) w
      unfolding waiting begun IsUsage code_of
      waiting-IsUsage m (ok s) w h = omega (arith, h)
      waiting-IsUsage m (err e) w h = omega (arith, h)
      waiting-IsUsage m panic w h = omega (arith, h)

      served-IsUsage :
          (r : Result Minion) (w : W)
          → IsUsage false (begun w (served sets host num_cpu registry r w)) w
      unfolding served begun IsUsage code_of
      served-IsUsage (ok m) w h = waiting-IsUsage m (start sets host m registry w) w h
      served-IsUsage (err e) w h = omega (arith, h)
      served-IsUsage panic w h = omega (arith, h)

      pub serve-IsUsage :
          (p : String × Option Error) (w : W)
          → IsUsage
              (lacks_repo flags p)
              (begun w (serve_as sets host num_cpu site registry flags p w))
              w
      unfolding serve_as lacks_repo begun IsUsage code_of
      serve-IsUsage (hostname, some e) w = λ h. omega (arith, h)
      serve-IsUsage (hostname, none) w = elim (Bool-cases (str_eq flags.siterepo "")) [
        | inl missing ↦ rw missing (missing_site_repo, refl)
        | inr given ↦ rw given (
            served-IsUsage
              (new_etcd_minion site (if str_eq flags.name "" then hostname else flags.name)
                flags.siterepo (workers num_cpu flags.concurrency) w)
              w)
      ]

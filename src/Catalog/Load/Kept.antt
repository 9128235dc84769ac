-- ===== src/Catalog/Load/Kept.antt =====
-- `Load` leaves the configuration of the catalog alone, and meets no nil node.
use gru.Prelude.{◌≡◌, ◌≢◌, refl, inl, inr, subst}
use gru.Errors.{Result, ok, err, panic, ◌>>=◌, deref}
use gru.Graph.Heap.{Heap}
use gru.Graph.Sets.{MapSet}
use gru.Graph.Sort.{sort}
use gru.Graph.Reversed.{reversed}
use gru.Resource.Collection.{create_collection, dependency_graph}
use gru.Catalog.{Config, Catalog}
use gru.Catalog.Load.{Loaded, arrange, build_graphs, set_fields, checked, sort_result}
use gru.Catalog.Load.Runnable.{arrange-Arranged, Arranged}

-- What is loaded has this configuration.
unfoldable pub HasConfig : {W : Type 0} → Config → Result (Loaded W) → Type 0
HasConfig config (ok l) = l.catalog.config ≡ config
HasConfig config (err e) = Unit
HasConfig config panic = Unit

bind-HasConfig :
    {W : Type 0} {A : Type 0} (config : Config) (m : Result A) (f : A → Result (Loaded W))
    → ((a : A) → HasConfig config (f a))
    → HasConfig config (m >>= f)
unfolding HasConfig
bind-HasConfig config (ok a) f all = all a
bind-HasConfig config (err e) f all = tt
bind-HasConfig config panic f all = tt

module _ (m : MapSet) {W : Type 0} (c : Catalog W) where
  pub arrange-HasConfig : (h : Heap) → HasConfig c.config (arrange m c h)
  unfolding arrange build_graphs set_fields HasConfig
  arrange-HasConfig h = bind-HasConfig c.config (checked (create_collection c.unsorted)) _ (λ coll.
      bind-HasConfig c.config (dependency_graph coll h) _ (λ (g, h₁).
        bind-HasConfig c.config (deref (reversed h₁ g)) _ (λ (back, h₂).
          bind-HasConfig c.config (sort_result (sort m h₂ g.nodes)) _ (λ order. refl))))

  pub arrange-ne-panic : (h : Heap) → arrange m c h ≢ panic
  arrange-ne-panic h e = elim (arrange-Arranged m c h) [
    | inl (k, again, fails) ↦ cc (e, fails)
    | inr (once, found, w) ↦ subst (Arranged (create_collection c.unsorted).0) e w
  ]

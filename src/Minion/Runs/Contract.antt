-- ===== src/Minion/Runs/Contract.antt =====
-- What a task's catalog comes to.
use gru.Prelude.{
  ◌<◌, String, true, Option, none, some, List, [], ◌∷◌, ◌++◌, ◌≡◌, refl, subst, sym, is_some,
  mem_str, lookup, All, All-append, Bool-cases, str_eq, inl, inr, ◌∙◌, ap, arith,
}
use gru.Errors.{Error, Result, ok, err, panic}
use gru.Graph.Heap.{blank}
use gru.Graph.Sets.{MapSet}
use gru.Resource.{Resource}
use gru.Catalog.{Catalog, Config, Line, new_catalog, add, add_unsorted, summarize}
use gru.Resource.Collection.{create_collection}
use gru.Resource.Collection.Ids.{find_id}
use gru.Catalog.Execute.Safety.{Returns, AllReturn}
use gru.Catalog.Load.{Loaded, load, arrange, checked}
use gru.Catalog.Load.Kept.{HasConfig, arrange-HasConfig, arrange-ne-panic}
use gru.Catalog.Load.Runnable.{Arranged, arrange-Arranged, loaded_run_alive, loaded_run_done}
use gru.Catalog.Run.{Running, Reach, IsDone, start}
use gru.Catalog.Run.Invariant.{names}
use gru.Catalog.Run.Schedule.{run, run-IsDone}
use gru.Minion.{Host}
use gru.Minion.Runs.{CatalogRun, load_failed, ran, crashed, begun, summed_up, launched, run_catalog}

module _ {W : Type 0} where
  -- None of the resources dereferences nil in its own methods.
  abbrev pub AllSound : List (Option (Resource W)) → Type 0
  AllSound rs = All (λ o. (r : Resource W) → o ≡ some r → Returns r) rs

  add_unsorted-Returns :
      (us : List (Resource W)) (rs : List (Option (Resource W)))
      → All Returns us
      → AllSound rs
      → All Returns (add_unsorted us rs)
  unfolding add_unsorted
  add_unsorted-Returns us [] sound more = sound
  add_unsorted-Returns us (none ∷ rs) sound more = add_unsorted-Returns us rs sound more.1
  add_unsorted-Returns us (some r ∷ rs) sound more =
      add_unsorted-Returns (us ++ r ∷ []) rs
        (All-append Returns us (r ∷ []) sound (more.0 r refl, tt)) more.1

  find_id-Returns :
      (k : String) (rs : List (Resource W)) (r : Resource W)
      → All Returns rs
      → find_id k rs ≡ some r
      → Returns r
  find_id-Returns k [] r sound e = absurd (cc e)
  find_id-Returns k (q ∷ rs) r sound e = elim (Bool-cases (str_eq q.id k)) [
    | inl here ↦ subst Returns (ground (arith, e, here)) sound.0
    | inr there ↦ find_id-Returns k rs r sound.1 (ground (arith, e, there))
  ]

-- No resource that a module adds dereferences nil in its own methods.
abbrev pub IsSound : {W : Type 0} → Host W → Type 0
IsSound {W} host = (config : Config) (w : W) → AllSound (host.do_file config w).0

module _ (sets : MapSet) {W : Type 0} (host : Host W) (config : Config) where
  abbrev pub catalog_of : List (Option (Resource W)) → Catalog W
  catalog_of rs = add (new_catalog config) rs

  -- A run of the loaded catalog that has ended, with an item for each resource.
  pub record IsRun (l : Loaded W) (w : W) (log : List Line) (w' : W) : Type 0 where
    pub end : Running W
    pub reached : Reach l.heap l.catalog (start l.heap l.catalog (begun sets host config l w)) end
    pub done : IsDone l.heap l.catalog end
    pub items :
        (d : String)
        → mem_str d (names l.heap l.catalog.sorted) ≡ true
        → is_some (lookup d end.shared.status) ≡ true
    pub logged : log ≡ end.shared.log ++ (summarize end.shared.status ∷ [])
    pub world : w' ≡ end.shared.world

  -- What follows `Load`.
  abbrev pub Launches : List (Option (Resource W)) → W → CatalogRun × W → Type 0
  Launches rs w (load_failed e, w') = (arrange sets (catalog_of rs) blank ≡ err e) × (w' ≡ w)
  Launches rs w (ran log, w') =
      (l : Loaded W) × (arrange sets (catalog_of rs) blank ≡ ok l) × IsRun l w log w'
  Launches rs w (crashed, w') = ⊥

  loaded-AllReturn :
      (rs : List (Option (Resource W))) (l : Loaded W)
      → AllSound rs
      → arrange sets (catalog_of rs) blank ≡ ok l
      → AllReturn l.catalog.collection
  unfolding add
  loaded-AllReturn rs l sound loads k r at = elim (arrange-Arranged sets (catalog_of rs) blank) [
    | inl (j, again, fails) ↦ absurd (cc (loads, fails))
    | inr (once, found, w) ↦
        let coll = (create_collection (catalog_of rs).unsorted).0 in
        let same = (subst (Arranged coll) loads w).0 in
        find_id-Returns k (catalog_of rs).unsorted r (add_unsorted-Returns [] rs tt sound)
          (sym (found k) ∙ ap (lookup k) (sym same) ∙ at)
  ]

  summed_up-Launches :
      (rs : List (Option (Resource W))) (w : W) (l : Loaded W)
      → AllSound rs
      → 0 < config.concurrency
      → arrange sets (catalog_of rs) blank ≡ ok l
      → Launches rs w (launched sets host config (ok l) w)
  unfolding launched summed_up HasConfig add
  summed_up-Launches rs w l sound busy loads =
      let c = catalog_of rs in
      let all = loaded-AllReturn rs l sound loads in
      let s = begun sets host config l w in
      let end = run l.heap l.catalog (host.schedule w) s in
      let same : l.catalog.config ≡ config =
        subst (HasConfig config) loads (arrange-HasConfig sets c blank) in
      let some_worker = subst (λ (k : Config). 0 < k.concurrency) (sym same) busy in
      let (reached, done) =
        run-IsDone l.heap l.catalog (host.schedule w) s some_worker
          (loaded_run_alive sets c blank l loads all s) in
      rw (loaded_run_alive sets c blank l loads all s end reached, summed_up)
        (
          l,
          loads,
          record {
            end = end;
            reached = reached;
            done = done;
            items = loaded_run_done sets c blank l loads all s end reached some_worker done;
            logged = refl;
            world = refl;
          },
        )

  arranged-Launches :
      (rs : List (Option (Resource W))) (w : W) (r : Result (Loaded W))
      → AllSound rs
      → 0 < config.concurrency
      → arrange sets (catalog_of rs) blank ≡ r
      → Launches rs w (launched sets host config r w)
  unfolding launched
  arranged-Launches rs w (ok l) sound busy loads = summed_up-Launches rs w l sound busy loads
  arranged-Launches rs w (err e) sound busy fails = (fails, refl)
  arranged-Launches rs w panic sound busy bad = arrange-ne-panic sets (catalog_of rs) blank bad

  -- What becomes of the module's resources, or of its error.
  abbrev pub IsOutcome : List (Option (Resource W)) × Option Error × W → CatalogRun × W → Type 0
  IsOutcome (rs, some e, w) r = r ≡ (load_failed e, w)
  IsOutcome (rs, none, w) r = Launches rs w r

  launched-IsOutcome :
      (rs : List (Option (Resource W))) (e : Option Error) (w : W)
      → AllSound rs
      → 0 < config.concurrency
      → IsOutcome
          (rs, e, w)
          (launched sets host config
            (load sets (λ _. checked (rs, e)) (new_catalog config) blank)
            w)
  unfolding launched load
  launched-IsOutcome rs (some e) w sound busy = refl
  launched-IsOutcome rs none w sound busy =
      arranged-Launches rs w (arrange sets (catalog_of rs) blank) sound busy refl

  pub run_catalog-IsOutcome :
      (w : W)
      → AllSound (host.do_file config w).0
      → 0 < config.concurrency
      → IsOutcome (host.do_file config w) (run_catalog sets host config w)
  unfolding run_catalog
  run_catalog-IsOutcome w sound busy =
      let (rs, e, w₁) = host.do_file config w in launched-IsOutcome rs e w₁ sound busy

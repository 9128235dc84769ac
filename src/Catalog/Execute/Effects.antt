-- ===== src/Catalog/Execute/Effects.antt =====
-- What `execute` does to the world: nothing when it only reports, and nothing to a resource whose
-- dependency has failed.
use gru.Prelude.{
  String, ◌≡◌, refl, Bool, true, false, none, some, List, [], ◌∷◌, arith, lookup, is_some, mem_str,
  eq_iff, inl, inr, Option-cases, ap,
}
use gru.Errors.{err, failed_dependency}
use gru.Resource.{Property, TriggerMap, Resource, Method}
use gru.Catalog.{Config, Status}
use gru.Catalog.Execute.{
  Shared, has_failed_dependencies, evaluate_and_act, close_after, act_on, initialize_and_act,
  execute, item_of,
}
use gru.Catalog.Execute.Safety.{AllProcessed}

-- The same resource with other ways to change the system.
abbrev pub with_effects :
    {W : Type 0} → Resource W → Method W → Method W → List (Property W) → TriggerMap W → Resource W
with_effects r create delete properties subscribed_to = record r {
  create = create;
  delete = delete;
  properties = properties;
  subscribed_to = subscribed_to;
}

-- The item of the id has an error.
abbrev pub has_failed : Status → String → Bool
has_failed items d = elim (lookup d items) [ none ↦ false | some item ↦ is_some item.err ]

-- `hasFailedDependencies` reports the first failure.
first_failed :
    (items : Status) (ds : List String) (d : String)
    → AllProcessed items ds
    → mem_str d ds ≡ true
    → has_failed items d ≡ true
    → (f : String) × (mem_str f ds ≡ true)
      × (has_failed items f ≡ true)
      × (has_failed_dependencies items ds ≡ err (failed_dependency f))
unfolding has_failed_dependencies
first_failed items [] d all m bad = absurd (ground (arith, m))
first_failed items (x ∷ ds) d all m bad = elim (Option-cases (lookup x items)) [
  | inl gone ↦ absurd (ground (arith, all x, eq_iff x x, gone))
  | inr (item, here) ↦ elim (Option-cases item.err) [
    | inr (e, failed) ↦
        (x, ground (arith, eq_iff x x), ground (arith, here, failed), ground (arith, here, failed))
    | inl fine ↦
        let (f, named, failed, found) =
          first_failed items ds d (λ k n. all k (ground (arith, n)))
            (ground
              (arith, m, bad, here, fine, eq_iff x d, ap (λ k. lookup k items) {x = x} {y = d}))
            bad in
        (f, ground (arith, named), failed, ground (arith, here, fine, found))
  ]
]

module _ {W : Type 0} (config : Config) where
  -- In a dry run the result and all effects are the same whatever the resource does to create or
  -- delete itself, to set its properties and to run its triggers: none of this is called.
  pub execute_dry_run :
      (r : Resource W) (create delete : Method W) (ps : List (Property W)) (ts : TriggerMap W)
      → (s : Shared W) → config.dry_run ≡ true
      → execute config (with_effects r create delete ps ts) s ≡ execute config r s
  unfolding execute evaluate_and_act close_after act_on initialize_and_act
  execute_dry_run r create delete ps ts s dry = rw dry refl

  -- If all dependencies were processed and one of them failed, the result is an error that names a
  -- failed dependency, with the state unchanged, and no method of the resource is called.
  pub execute_failed_dependency :
      (r : Resource W) (s : Shared W) (d : String)
      → AllProcessed s.status r.dependencies
      → mem_str d r.dependencies ≡ true
      → has_failed s.status d ≡ true
      → (f : String) × (mem_str f r.dependencies ≡ true)
        × (has_failed s.status f ≡ true)
        × (execute config r s ≡ (some (item_of false (some (failed_dependency f))), s))
  unfolding execute
  execute_failed_dependency r s d all m bad =
      let (f, named, failed, found) = first_failed s.status r.dependencies d all m bad in
      (f, named, failed, rw (found, execute))

-- ===== src/Catalog/Execute.antt =====
-- `execute`, `runTriggers` and `hasFailedDependencies` of catalog/catalog.go.
pub mod Safety
pub mod Effects
use gru.Prelude.{
  String, Bool, true, false, not, ◌&&◌, Option, none, some, List, [], ◌∷◌, ◌++◌, Map, lookup,
  insert, if◌then◌else◌,
}
use gru.Errors.{
  Error, failed_dependency, cannot_evaluate, cannot_set, is_absent, Result, ok, err, panic, deref,
  ◌>>=◌,
}
use gru.Utils.Strings.{new_list, new_string, is_in_list}
use gru.Resource.{Method, State, Property, TriggerMap, Resource}
use gru.Catalog.{
  Config, StatusItem, Status, Line, should_be, out_of_date, running_trigger, trigger_failed, failed,
}

-- What the resources and the catalog share while they are processed.
pub record Shared (W : Type 0) : Type 0 where
  pub world : W
  pub status : Status
  pub log : List Line

abbrev pub item_of : Bool → Option Error → StatusItem
item_of changed e = record { state_changed = changed; err = e }

unfoldable pub has_failed_dependencies : Status → List String → Result (Unit {0})
has_failed_dependencies items [] = ok tt
has_failed_dependencies items (d ∷ ds) = do
  item ← deref (lookup d items)
  elim item.err [ some _ ↦ err (failed_dependency d) | none ↦ has_failed_dependencies items ds ]

-- What `execute` is to do about the state of a resource.
pub data Plan : Type 0 where
  do_create do_delete in_sync : Plan

module _ {W : Type 0} where
  abbrev pub print : Line → Shared W → Shared W
  print l s = record s { log = s.log ++ l ∷ [] }

  abbrev pub in_world : W → Shared W → Shared W
  in_world w s = record s { world = w }

  unfoldable pub plan : Resource W → State → Plan
  plan r state =
      let want = new_string state.want in
      let current = new_string state.current in
      let present = new_list r.present_states in
      let absent = new_list r.absent_states in
      if is_in_list want present && is_in_list current absent
      then do_create
      else if is_in_list want absent && is_in_list current present
      then do_delete
      else in_sync

  -- The loop over the properties. `changed` is `stateChanged`; at an error the loop returns it
  -- wrapped.
  unfoldable pub sync_properties :
      String → List (Property W) → Bool → Shared W → Bool × Result (Unit {0}) × Shared W
  sync_properties id [] changed s = (changed, ok tt, s)
  sync_properties id (p ∷ ps) changed s = elim (p.is_synced s.world) [
    | none ↦ (changed, panic, s)
    | some (synced, some e, w) ↦
        if is_absent e
        then sync_properties id ps changed (in_world w s)
        else (true, err (cannot_evaluate e), in_world w s)
    | some (true, none, w) ↦ sync_properties id ps changed (in_world w s)
    | some (false, none, w) ↦
        let s₁ = print (out_of_date id p.name) (in_world w s) in
        elim (p.set w) [
          | none ↦ (true, panic, s₁)
          | some (some e, w₁) ↦ (true, err (cannot_set e), in_world w₁ s₁)
          | some (none, w₁) ↦ sync_properties id ps true (in_world w₁ s₁)
        ]
  ]

  -- The loop over the subscriptions.
  unfoldable pub run_triggers : String → TriggerMap W → Shared W → Result (Unit {0}) × Shared W
  run_triggers id [] s = (ok tt, s)
  run_triggers id ((d, trigger) ∷ ts) s = elim (lookup d s.status) [
    | none ↦ (panic, s)
    | some item ↦ elim item.state_changed [
      | false ↦ run_triggers id ts s
      | true ↦
          let (e, w) = trigger s.world in
          let s₁ = in_world w (print (running_trigger id d) s) in
          elim e [
            | some e₁ ↦ (err e₁, print (trigger_failed id e₁) s₁)
            | none ↦ run_triggers id ts s₁
          ]
    ]
  ]

  -- From the properties on. `none` in place of an item is a panic, of `execute` or of a method.
  unfoldable pub finish : Resource W → Bool → Shared W → Option StatusItem × Shared W
  unfolding sync_properties run_triggers
  finish r changed s =
      let (changed₁, e, s₁) = sync_properties r.id r.properties changed s in
      elim e [
        | panic ↦ (none, s₁)
        | err e₁ ↦ (some (item_of true (some e₁)), s₁)
        | ok _ ↦
            let (t, s₂) = run_triggers r.id r.subscribed_to s₁ in
            elim t [
              | ok _ ↦ (some (item_of changed₁ none), s₂)
              | err e₂ ↦ (some (item_of changed₁ (some e₂)), s₂)
              | panic ↦ (none, s₂)
            ]
      ]

  -- action()
  unfoldable pub act : Resource W → Method W → State → Shared W → Option StatusItem × Shared W
  unfolding finish
  act r action state s =
      let s₁ = print (should_be r.id state.current state.want) s in
      elim (action s₁.world) [
        | none ↦ (none, s₁)
        | some (some e, w) ↦ (some (item_of true (some e)), in_world w s₁)
        | some (none, w) ↦ finish r true (in_world w s₁)
      ]

  -- What follows `Evaluate`.
  unfoldable pub act_on : Config → Resource W → State → Shared W → Option StatusItem × Shared W
  unfolding plan act
  act_on config r state s =
      if config.dry_run then (some (item_of false none), s) else elim (plan r state) [
        | do_create ↦ act r r.create state s
        | do_delete ↦ act r r.delete state s
        | in_sync ↦ finish r false s
      ]

  -- What stands under `defer r.Close()`.
  unfoldable pub evaluate_and_act : Config → Resource W → Shared W → Option StatusItem × Shared W
  unfolding act_on
  evaluate_and_act config r s = elim (r.evaluate s.world) [
    | none ↦ (none, s)
    | some (state, some e, w) ↦ (some (item_of false (some e)), in_world w s)
    | some (state, none, w) ↦ act_on config r state (in_world w s)
  ]

  unfoldable pub close_after :
      Resource W → Option StatusItem × Shared W → Option StatusItem × Shared W
  close_after r (item, s) = elim (r.close s.world) [
    | none ↦ (none, s)
    | some (e, w) ↦ (item, in_world w s)
  ]

  -- From `Initialize` on.
  unfoldable pub initialize_and_act : Config → Resource W → Shared W → Option StatusItem × Shared W
  unfolding evaluate_and_act close_after
  initialize_and_act config r s = elim (r.initialize s.world) [
    | none ↦ (none, s)
    | some (some e, w) ↦ (some (item_of false (some e)), in_world w s)
    | some (none, w) ↦ close_after r (evaluate_and_act config r (in_world w s))
  ]

  unfoldable pub execute : Config → Resource W → Shared W → Option StatusItem × Shared W
  unfolding has_failed_dependencies initialize_and_act
  execute config r s = elim (has_failed_dependencies s.status r.dependencies) [
    | panic ↦ (none, s)
    | err e ↦ (some (item_of false (some e)), s)
    | ok _ ↦ elim (r.validate s.world) [
      | none ↦ (none, s)
      | some (some e, w) ↦ (some (item_of false (some e)), in_world w s)
      | some (none, w) ↦ initialize_and_act config r (in_world w s)
    ]
  ]

  -- The body of `process`: the item is stored under the id.
  unfoldable pub process : Config → Resource W → Shared W → Option (Shared W)
  unfolding execute
  process config r s =
      let (item, s₁) = execute config r s in
      elim item [
        | none ↦ none
        | some i ↦
            let s₂ = record s₁ { status = insert r.id i s₁.status } in
            elim i.err [ none ↦ some s₂ | some e ↦ some (print (failed r.id e) s₂) ]
      ]

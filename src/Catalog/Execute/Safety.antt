-- ===== src/Catalog/Execute/Safety.antt =====
-- `execute` never touches the status map, and meets no nil item once the resources that it depends
-- on and subscribes to were processed.
use gru.Prelude.{
  String, ◌≡◌, refl, ◌≢◌, Bool, true, false, ◌||◌, none, some, List, [], ◌∷◌, arith, lookup,
  is_some, mem_str, str_eq, eq_iff, Option, All, inl, inr, Option-cases, insert, lookup-insert,
}
use gru.Errors.{panic}
use gru.Resource.{Property, TriggerMap, Resource, Method, State}
use gru.Resource.Collection.{Collection, keys}
use gru.Catalog.{Config, StatusItem, Status, out_of_date, running_trigger, should_be, failed}
use gru.Catalog.Execute.{
  Shared, has_failed_dependencies, sync_properties, run_triggers, finish, act, evaluate_and_act,
  act_on, initialize_and_act, close_after, execute, process, print, in_world,
}

-- Every id of the list has an item.
abbrev pub AllProcessed : Status → List String → Type 0
AllProcessed items ds = (d : String) → mem_str d ds ≡ true → is_some (lookup d items) ≡ true

has_failed_dependencies-ne-panic :
    (items : Status) (ds : List String)
    → AllProcessed items ds
    → has_failed_dependencies items ds ≢ panic
unfolding has_failed_dependencies
has_failed_dependencies-ne-panic items [] all e = cc
has_failed_dependencies-ne-panic items (d ∷ ds) all e = ground (
  arith,
  e,
  all d,
  eq_iff d d,
  has_failed_dependencies-ne-panic items ds (λ k m. all k (ground (arith, m))),
)

-- The methods of a property never dereference nil.
pub record PropertyReturns {W : Type 0} (p : Property W) : Type 0 where
  pub is_synced : (w : W) → p.is_synced w ≢ none
  pub set : (w : W) → p.set w ≢ none

-- The methods of a resource never dereference nil.
pub record Returns {W : Type 0} (r : Resource W) : Type 0 where
  pub validate : (w : W) → r.validate w ≢ none
  pub initialize : (w : W) → r.initialize w ≢ none
  pub evaluate : (w : W) → r.evaluate w ≢ none
  pub create : (w : W) → r.create w ≢ none
  pub delete : (w : W) → r.delete w ≢ none
  pub close : (w : W) → r.close w ≢ none
  pub properties : All PropertyReturns r.properties

-- No resource of the collection dereferences nil in its own methods.
abbrev pub AllReturn : {W : Type 0} → Collection W → Type 0
AllReturn {W} coll = (k : String) (r : Resource W) → lookup k coll ≡ some r → Returns r

module _ {W : Type 0} where
  -- How the loop over the properties ends.
  sync_properties-safe :
      (id : String) (ps : List (Property W)) (changed : Bool) (s : Shared W)
      → ((sync_properties id ps changed s).2.status ≡ s.status)
        × (All PropertyReturns ps → (sync_properties id ps changed s).1 ≢ panic)
  unfolding sync_properties
  sync_properties-safe id [] changed s = (refl, λ all e. cc e)
  sync_properties-safe id (p ∷ ps) changed s = elim (Option-cases (p.is_synced s.world)) [
    | inl gone ↦ (ground (arith, gone), λ all e. absurd (all.0.is_synced s.world gone))
    | inr ((synced, e, w), here) ↦
        let s₁ = print (out_of_date id p.name) (in_world w s) in
        let kept = sync_properties-safe id ps changed (in_world w s) in
        elim (Option-cases (p.set w)) [
          | inl gone ↦ (
            ground (arith, here, gone, kept.0),
            λ all bad. ground (arith, here, bad, kept.1 all.1, all.0.set w),
          )
          | inr ((e₁, w₁), set) ↦
              let more = sync_properties-safe id ps true (in_world w₁ s₁) in
              (
                ground (arith, here, set, kept.0, more.0),
                λ all bad. ground (arith, here, set, bad, kept.1 all.1, more.1 all.1),
              )
        ]
  ]

  status-run_triggers :
      (id : String) (ts : TriggerMap W) (s : Shared W) → (run_triggers id ts s).1.status ≡ s.status
  unfolding run_triggers
  status-run_triggers id [] s = refl
  status-run_triggers id ((d, trigger) ∷ ts) s =
      let (e, w) = trigger s.world in
      let s₁ = in_world w (print (running_trigger id d) s) in
      ground (arith, status-run_triggers id ts s, status-run_triggers id ts s₁)

  run_triggers-ne-panic :
      (id : String) (ts : TriggerMap W) (s : Shared W)
      → AllProcessed s.status (keys ts)
      → (run_triggers id ts s).0 ≢ panic
  unfolding run_triggers
  run_triggers-ne-panic id [] s all e = cc
  run_triggers-ne-panic id ((d, trigger) ∷ ts) s all e =
      let (e₁, w) = trigger s.world in
      let s₁ = in_world w (print (running_trigger id d) s) in
      ground (
        arith,
        e,
        all d,
        eq_iff d d,
        run_triggers-ne-panic id ts s (λ k m. all k (ground (arith, m))),
        run_triggers-ne-panic id ts s₁ (λ k m. all k (ground (arith, m))),
      )

  module _ (r : Resource W) where
    -- The status map is the same, and if the methods return and each id that the resource subscribes
    -- to has an item, the result is an item.
    abbrev IsSafe : Shared W → Option StatusItem × Shared W → Type 0
    IsSafe s p =
        (p.1.status ≡ s.status)
        × (Returns r → AllProcessed s.status (keys r.subscribed_to) → p.0 ≢ none)

    finish-IsSafe : (changed : Bool) (s : Shared W) → IsSafe s (finish r changed s)
    unfolding finish
    finish-IsSafe changed s =
        let (changed₁, e, s₁) = sync_properties r.id r.properties changed s in
        let (same, total) = sync_properties-safe r.id r.properties changed s in
        (
          ground (arith, same, status-run_triggers r.id r.subscribed_to s₁),
          λ sound all gone. ground (
            arith,
            gone,
            total sound.properties,
            run_triggers-ne-panic r.id r.subscribed_to s₁ (rw same all),
          ),
        )

    act-IsSafe :
        (action : Method W) (state : State) (s : Shared W)
        → (Returns r → (w : W) → action w ≢ none)
        → IsSafe s (act r action state s)
    unfolding act
    act-IsSafe action state s acts =
        let s₁ = print (should_be r.id state.current state.want) s in
        elim (Option-cases (action s.world)) [
          | inl gone ↦ (ground (arith, gone), λ sound all e. absurd (acts sound s.world gone))
          | inr ((e, w), here) ↦
              let safe = finish-IsSafe true (in_world w s₁) in
              (
                ground (arith, here, safe.0),
                λ sound all gone. ground (arith, here, gone, safe.1 sound all),
              )
        ]

    act_on-IsSafe :
        (config : Config) (state : State) (s : Shared W) → IsSafe s (act_on config r state s)
    unfolding act_on
    act_on-IsSafe config state s =
        let made = act-IsSafe r.create state s (λ sound. sound.create) in
        let gone = act-IsSafe r.delete state s (λ sound. sound.delete) in
        let kept = finish-IsSafe false s in
        (
          ground (arith, made.0, gone.0, kept.0),
          λ sound all e. ground (arith, e, made.1 sound all, gone.1 sound all, kept.1 sound all),
        )

    evaluate_and_act-IsSafe :
        (config : Config) (s : Shared W) → IsSafe s (evaluate_and_act config r s)
    unfolding evaluate_and_act
    evaluate_and_act-IsSafe config s = elim (Option-cases (r.evaluate s.world)) [
      | inl gone ↦ (ground (arith, gone), λ sound all e. absurd (sound.evaluate s.world gone))
      | inr ((state, e, w), here) ↦
          let safe = act_on-IsSafe config state (in_world w s) in
          (
            ground (arith, here, safe.0),
            λ sound all gone. ground (arith, here, gone, safe.1 sound all),
          )
    ]

    close_after-IsSafe :
        (s : Shared W) (p : Option StatusItem × Shared W) → IsSafe s p → IsSafe s (close_after r p)
    unfolding close_after
    close_after-IsSafe s (item, s₁) (same, total) = elim (Option-cases (r.close s₁.world)) [
      | inl gone ↦ (rw (gone, close_after) same, λ sound all e. absurd (sound.close s₁.world gone))
      | inr ((e, w), here) ↦
          (rw (here, close_after) same, λ sound all. rw (here, close_after) (total sound all))
    ]

    initialize_and_act-IsSafe :
        (config : Config) (s : Shared W) → IsSafe s (initialize_and_act config r s)
    unfolding initialize_and_act
    initialize_and_act-IsSafe config s = elim (Option-cases (r.initialize s.world)) [
      | inl gone ↦ (ground (arith, gone), λ sound all e. absurd (sound.initialize s.world gone))
      | inr ((e, w), here) ↦
          let s₁ = in_world w s in
          let safe =
            close_after-IsSafe s₁ (evaluate_and_act config r s₁)
              (evaluate_and_act-IsSafe config s₁) in
          (
            ground (arith, here, safe.0),
            λ sound all gone. ground (arith, here, gone, safe.1 sound all),
          )
    ]

    -- The status map is left alone; and if the methods return and all ids that the resource requires
    -- or subscribes to have an item, the result is an item.
    pub execute-safe :
        (config : Config) (s : Shared W)
        → ((execute config r s).1.status ≡ s.status)
          × (Returns r
              → AllProcessed s.status r.dependencies
              → AllProcessed s.status (keys r.subscribed_to)
              → (execute config r s).0 ≢ none)
    unfolding execute
    execute-safe config s = elim (Option-cases (r.validate s.world)) [
      | inl gone ↦ (ground (arith, gone), λ sound deps subs e. absurd (sound.validate s.world gone))
      | inr ((e, w), here) ↦
          let safe = initialize_and_act-IsSafe config (in_world w s) in
          (
            ground (arith, here, safe.0),
            λ sound deps subs gone. ground (
              arith,
              here,
              gone,
              safe.1 sound subs,
              has_failed_dependencies-ne-panic s.status r.dependencies deps,
            ),
          )
    ]

    -- If the methods of the resource return, and all ids that it requires or subscribes to have an
    -- item, `process` meets no nil item, the resource has an item afterwards, and no other id gains or loses one.
    pub process-safe :
        (config : Config) (s : Shared W)
        → Returns r
        → AllProcessed s.status r.dependencies
        → AllProcessed s.status (keys r.subscribed_to)
        → (s' : Shared W) × (process config r s ≡ some s')
          × ((k : String)
              → is_some (lookup k s'.status) ≡ (str_eq r.id k || is_some (lookup k s.status)))
    unfolding process
    process-safe config s sound deps subs =
        let (safe, total) = execute-safe config s in
        elim (Option-cases (execute config r s).0) [
          | inl gone ↦ absurd (total sound deps subs gone)
          | inr (i, here) ↦ elim (Option-cases i.err) [
            | inl fine ↦ (stored i, ground (arith, here, fine), has_item i)
            | inr (e, bad) ↦
                (print (failed r.id e) (stored i), ground (arith, here, bad), has_item i)
          ]
        ]
      where
        stored : StatusItem → Shared W
        stored i = let s₁ = (execute config r s).1 in record s₁ { status = insert r.id i s₁.status }

        has_item :
            (i : StatusItem) (k : String)
            → is_some (lookup k (stored i).status) ≡ (str_eq r.id k || is_some (lookup k s.status))
        has_item i k =
            ground (
              arith,
              (execute-safe config s).0,
              lookup-insert r.id k i (execute config r s).1.status,
            )

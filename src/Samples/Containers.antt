-- ===== src/Samples/Containers.antt =====
-- Two goroutines on a map, and on a slice.
use gru.Prelude.{ℕ, String, refl, true, false, none, some, List, [], ◌∷◌, lookup, insert}
use gru.Utils.Guarded.{
  Goroutine, waiting, iterating, entered, loaded, leaving, returned, sending, closed, System, Step,
  pick, Reach, here, next, lock, unlock, move, MapOp, set, get, map_apply, concurrent_map,
  concurrent_slice,
}
use gru.Utils.Guarded.Exclusion.{IsExclusive, Reach-IsExclusive, begun}
use gru.Utils.Guarded.Stuck.{Step-ne_closed}
use gru.Utils.Guarded.Linear.{IsLinear, Reach-IsLinear}

abbrev two_calls : List (Goroutine (concurrent_map ℕ))
two_calls = waiting (set "a" 1) ∷ waiting (get "a") ∷ []

abbrev both_done : System (concurrent_map ℕ)
unfolding map_apply insert lookup
both_done = record {
  guard = record { locked = false; items = ("a", 1) ∷ [] };
  goroutines = returned (set "a" 1) none ∷ returned (get "a") (some 1) ∷ [];
}

two_run : Reach (concurrent_map ℕ) (begun (concurrent_map ℕ) [] two_calls) both_done
unfolding move lock unlock map_apply insert lookup
two_run =
    let set_call : MapOp ℕ = set "a" 1 in
    let get_call : MapOp ℕ = get "a" in
    let first = returned set_call none in
    next
      (next
        (next
          (next
            (next
              (next
                (next
                  (next here (
                    pick [] (waiting get_call ∷ []) (waiting set_call) (entered set_call) _ refl
                      refl))
                  (pick [] (waiting get_call ∷ []) (entered set_call) (loaded set_call []) _ refl
                    refl))
                (pick [] (waiting get_call ∷ []) (loaded set_call []) (leaving set_call none) _ refl
                  refl))
              (pick [] (waiting get_call ∷ []) (leaving set_call none) first _ refl refl))
            (pick (first ∷ []) [] (waiting get_call) (entered get_call) _ refl refl))
          (pick (first ∷ []) [] (entered get_call) (loaded get_call (("a", 1) ∷ [])) _ refl refl))
        (pick (first ∷ []) [] (loaded get_call (("a", 1) ∷ [])) (leaving get_call (some 1)) _ refl
          refl))
      (pick (first ∷ []) [] (leaving get_call (some 1)) (returned get_call (some 1)) _ refl refl)

Reach-IsExclusive_example : IsExclusive (concurrent_map ℕ) both_done
Reach-IsExclusive_example =
    Reach-IsExclusive (concurrent_map ℕ) [] two_calls both_done (tt, (tt, tt)) two_run

Reach-IsLinear_example : IsLinear (concurrent_map ℕ) [] both_done
Reach-IsLinear_example =
    Reach-IsLinear (concurrent_map ℕ) [] two_calls both_done (tt, (tt, tt)) two_run

-- A search appends an item and another goroutine iterates.
abbrev search : List (Goroutine (concurrent_slice String))
search = iterating ∷ waiting "web" ∷ []

abbrev iterated : System (concurrent_slice String)
iterated = record {
  guard = record { locked = true; items = [] };
  goroutines = closed [] ∷ waiting "web" ∷ [];
}

search_run : Reach (concurrent_slice String) (begun (concurrent_slice String) [] search) iterated
unfolding move lock unlock
search_run =
    next (next here (pick [] (waiting "web" ∷ []) iterating (sending [] []) _ refl refl))
      (pick [] (waiting "web" ∷ []) (sending [] []) (closed []) _ refl refl)

Step-ne_closed_example : ¬ Step (concurrent_slice String) iterated iterated
Step-ne_closed_example =
    Step-ne_closed (concurrent_slice String) refl [] search iterated iterated (tt, (tt, tt))
      search_run [] (waiting "web" ∷ []) [] refl

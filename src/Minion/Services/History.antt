-- ===== src/Minion/Services/History.antt =====
-- What the moves of a run took, handed over and processed, and what is still offered.
use gru.Prelude.{ℕ, ◌+◌, Bool, List, [], ◌∷◌, ◌++◌, ◌≡◌, arith, length, select}
use gru.Task.{Task}
use gru.Minion.Services.{
  Service, sending, forwarding, Runner, receiving, processing, Act, took, handed, ended,
}

-- The tasks whose nodes were deleted from the queue, in their order; then those that were handed
-- over and processed.
unfoldable pub all_taken : List Act → List Task
all_taken [] = []
all_taken (took ts us ∷ acts) = all_taken acts ++ ts
all_taken (_ ∷ acts) = all_taken acts

-- Those of the tasks taken that were given up, since they could not be saved.
unfoldable pub all_lost : List Act → List Task
all_lost [] = []
all_lost (took ts us ∷ acts) = all_lost acts ++ us
all_lost (_ ∷ acts) = all_lost acts

unfoldable pub all_handed : List Act → List Task
all_handed [] = []
all_handed (handed t ∷ acts) = all_handed acts ++ (t ∷ [])
all_handed (_ ∷ acts) = all_handed acts

unfoldable pub all_ended : List Act → List Task
all_ended [] = []
all_ended (ended t ∷ acts) = all_ended acts ++ (t ∷ [])
all_ended (_ ∷ acts) = all_ended acts

-- The task that the runner has.
abbrev pub in_hand : Runner → List Task
in_hand receiving = []
in_hand (processing t) = t ∷ []

-- The task that a goroutine sends.
abbrev pub offer : Service → List Task
offer (sending c t ns) = t ∷ []
offer (forwarding t) = t ∷ []
offer _ = []

abbrev pub offers : List Service → List Task
offers [] = []
offers (x ∷ xs) = offer x ++ offers xs

-- How many of the tasks pass a test.
abbrev pub count : (Task → Bool) → List Task → ℕ
count p ts = length (select p ts)

pub count-append :
    (p : Task → Bool) (ts us : List Task) → count p (ts ++ us) ≡ count p ts + count p us
count-append p [] us = omega arith
count-append p (t ∷ ts) us = ground (arith, count-append p ts us)

pub count-offers :
    (p : Task → Bool) (xs ys : List Service)
    → count p (offers (xs ++ ys)) ≡ count p (offers xs) + count p (offers ys)
count-offers p [] ys = omega arith
count-offers p (x ∷ xs) ys = omega (
  arith,
  count-offers p xs ys,
  count-append p (offer x) (offers xs),
  count-append p (offer x) (offers (xs ++ ys)),
)

-- What replacing one goroutine does to the offers.
pub count-replaced :
    (p : Task → Bool) (before after : List Service) (x y : Service)
    → count p (offers (before ++ x ∷ after)) + count p (offer y)
      ≡ count p (offers (before ++ y ∷ after)) + count p (offer x)
count-replaced p before after x y = omega (
  arith,
  count-offers p before (x ∷ after),
  count-offers p before (y ∷ after),
  count-append p (offer x) (offers after),
  count-append p (offer y) (offers after),
)

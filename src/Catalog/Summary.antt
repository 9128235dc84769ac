-- ===== src/Catalog/Summary.antt =====
-- What `Summary` counts.
use gru.Prelude.{ℕ, suc, ◌+◌, ◌≡◌, Bool, true, false, none, some, [], ◌∷◌, arith, length, is_some}
use gru.Catalog.{StatusItem, Status, Counts, count, count_items, summary, summarize}

-- The items that pass a test.
pub tally : (StatusItem → Bool) → Status → ℕ
tally p [] = 0
tally p ((id, item) ∷ items) = let n = tally p items in elim (p item) [ true ↦ suc n | false ↦ n ]

abbrev pub has_failed : StatusItem → Bool
has_failed item = is_some item.err

abbrev pub has_changed : StatusItem → Bool
has_changed item = elim item.err [ some _ ↦ false | none ↦ item.state_changed ]

pub IsTotal : Counts → Counts → Status → Type 0
IsTotal n total items =
    (total.failures ≡ n.failures + tally has_failed items)
    × (total.changed ≡ n.changed + tally has_changed items)
    × (total.uptodate + total.changed + total.failures
        ≡ n.uptodate + n.changed + n.failures + length items)

count_items-IsTotal : (n : Counts) (items : Status) → IsTotal n (count_items n items) items
unfolding count_items count tally IsTotal
count_items-IsTotal n [] = ground arith
count_items-IsTotal n ((id, item) ∷ items) =
    let ih = count_items-IsTotal (count n item.state_changed item.err) items in ground (arith, ih)

-- The summary counts every item once: as failed if it has an error, else as changed if its state
-- was changed, else as up-to-date.
pub summarize-total :
    (items : Status)
    → (uptodate : ℕ) × (summarize items
        ≡ summary uptodate (tally has_changed items) (tally has_failed items))
      × (uptodate + tally has_changed items + tally has_failed items ≡ length items)
unfolding summarize IsTotal
summarize-total items =
    let zero_counts : Counts = record { changed = 0; failures = 0; uptodate = 0 } in
    let total = count_items zero_counts items in
    let (f, c, all) = count_items-IsTotal zero_counts items in
    (total.uptodate, ground (arith, f, c), ground (arith, f, c, all))

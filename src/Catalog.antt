-- ===== src/Catalog.antt =====
-- catalog/catalog.go: the resources of a module, their order, and their processing.
--
-- `Execute` has the processing of one resource, `Load` the loading of the catalog and `Run` the
-- concurrent processing of all resources.
pub mod Execute
pub mod Load
pub mod Run
pub mod Summary
use gru.Prelude.{
  ℕ, suc, zero, ◌+◌, String, Bool, true, false, Option, none, some, List, [], ◌∷◌, ◌++◌, Map,
  length,
}
use gru.Errors.{Error}
use gru.Graph.Heap.{Heap, Graph, new}
use gru.Resource.{Resource}
use gru.Resource.Collection.{Collection}

pub record Config : Type 0 where
  pub mod_name : String
  pub dry_run : Bool
  pub site_repo : String
  pub concurrency : ℕ

pub record StatusItem : Type 0 where
  pub state_changed : Bool
  pub err : Option Error

abbrev pub Status : Type 0
Status = Map StatusItem

-- What the catalog prints to its logger.
pub data Line : Type 0 where
  loaded starting : ℕ → Line
  concurrent : String → Line
  failed : String → Error → Line
  should_be : String → String → String → Line
  out_of_date : String → String → Line
  running_trigger : String → String → Line
  trigger_failed : String → Error → Line
  summary : ℕ → ℕ → ℕ → Line

pub record Catalog (W : Type 0) : Type 0 where
  pub unsorted : List (Resource W)
  pub collection : Collection W
  pub sorted : List ℕ
  pub reversed : Graph
  pub status : Status
  pub config : Config

abbrev pub new_catalog : {W : Type 0} → Config → Catalog W
new_catalog config = record {
  unsorted = [];
  collection = [];
  sorted = [];
  reversed = new;
  status = [];
  config = config;
}

-- A nil resource is skipped.
unfoldable pub add_unsorted :
    {W : Type 0} → List (Resource W) → List (Option (Resource W)) → List (Resource W)
add_unsorted us [] = us
add_unsorted us (none ∷ rs) = add_unsorted us rs
add_unsorted us (some r ∷ rs) = add_unsorted (us ++ r ∷ []) rs

unfoldable pub add : {W : Type 0} → Catalog W → List (Option (Resource W)) → Catalog W
unfolding add_unsorted
add c rs = record c { unsorted = add_unsorted c.unsorted rs }

unfoldable pub lua_len : {W : Type 0} → Catalog W → ℕ
lua_len c = length c.unsorted

-- The counters of `Summary`.
pub record Counts : Type 0 where
  pub changed : ℕ
  pub failures : ℕ
  pub uptodate : ℕ

unfoldable pub count : Counts → Bool → Option Error → Counts
count n true none = record n { changed = n.changed + 1 }
count n false none = record n { uptodate = n.uptodate + 1 }
count n _ (some e) = record n { failures = n.failures + 1 }

unfoldable pub count_items : Counts → Status → Counts
unfolding count
count_items n [] = n
count_items n ((id, item) ∷ items) = count_items (count n item.state_changed item.err) items

unfoldable pub summarize : Status → Line
unfolding count_items
summarize items =
    let n = count_items (record { changed = 0; failures = 0; uptodate = 0 }) items in
    summary n.uptodate n.changed n.failures

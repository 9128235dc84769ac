-- ===== src/Client.antt =====
-- client/etcd.go: a client reads what the minions keep in etcd, and submits tasks to them.  A uuid
-- is its text.
pub mod Search
pub mod Log
pub mod Interface
use gru.Prelude.{ℕ, String, Option, none, some, List, [], ◌∷◌}
use gru.Errors.{Error, other, Result, ok, err, panic}
use gru.Task.{Task}
use gru.Minion.{Host, Leaf, Directory, Reply, found, failed}
use gru.Classifier.{Classifier}
use gru.Minion.Keys.{join, etcd_minion_space}

-- The error of a value that is not read, which comes from a package outside the repository.
abbrev pub malformed : Error
malformed = other "malformed"

-- `v, err := f(resp.Node)` after the check of the error of the Get.
unfoldable pub read {ℓ} :
    {W : Type 0} {A : Type ℓ} → (Directory → Result A) → Reply × W → Result A × W
read f (failed e, w) = (err e, w)
read f (found d, w) = (f d, w)

unfoldable pub parsed {ℓ} : {A : Type ℓ} → Option A → Result A
parsed none = err malformed
parsed (some a) = ok a

module _ {W : Type 0} (host : Host W) where
  -- The loop over the nodes of the minion space: bad uuids are left out.
  unfoldable pub minion_ids : List Leaf → List String
  minion_ids [] = []
  minion_ids (n ∷ ns) =
      let us = minion_ids ns in
      elim (host.parse_uuid (host.base n.key)) [ none ↦ us | some u ↦ u ∷ us ]

  unfoldable pub minion_list : W → Result (List String) × W
  unfolding read minion_ids
  minion_list w = read (λ d. ok (minion_ids d.nodes)) (host.kapi_get etcd_minion_space w)

  unfoldable pub minion_name : String → W → Result String × W
  unfolding read join
  minion_name m w =
      read (λ d. ok d.value) (host.kapi_get (join (join etcd_minion_space m) "name") w)

  unfoldable pub minion_lastseen : String → W → Result ℕ × W
  unfolding read join parsed
  minion_lastseen m w =
      read (λ d. parsed (host.parse_int d.value))
        (host.kapi_get (join (join etcd_minion_space m) "lastseen") w)

  unfoldable pub minion_classifier : String → String → W → Result Classifier × W
  unfolding read join parsed
  minion_classifier m key w =
      read (λ d. parsed (host.unmarshal_classifier d.value))
        (host.kapi_get (join (join (join etcd_minion_space m) "classifier") key) w)

  -- A loop that appends a value of every node and returns at the first that is not read.
  unfoldable pub collect : {A : Type 0} → (String → Option A) → List Leaf → Result (List A)
  unfolding parsed
  collect f [] = ok []
  collect f (n ∷ ns) =
      let rest = collect f ns in
      elim (f n.value) [
        | none ↦ err malformed
        | some a ↦ elim rest [ ok rs ↦ ok (a ∷ rs) | err e ↦ err e | panic ↦ panic ]
      ]

  unfoldable pub minion_classifier_keys : String → W → Result (List String) × W
  unfolding read join collect
  minion_classifier_keys m w =
      read
        (λ d.
          collect (λ s. elim (host.unmarshal_classifier s) [ none ↦ none | some c ↦ some c.key ])
            d.nodes)
        (host.kapi_get (join (join etcd_minion_space m) "classifier") w)

  unfoldable pub minion_task_result : String → String → W → Result Task × W
  unfolding read join parsed
  minion_task_result m t w =
      read (λ d. parsed (host.unmarshal_task d.value))
        (host.kapi_get (join (join (join etcd_minion_space m) "log") t) w)

  unfoldable pub minion_task_queue : String → W → Result (List Task) × W
  unfolding read join collect
  minion_task_queue m w =
      read (λ d. collect host.unmarshal_task d.nodes)
        (host.kapi_get (join (join etcd_minion_space m) "queue") w)

  unfoldable pub minion_task_log : String → W → Result (List String) × W
  unfolding read join collect
  minion_task_log m w =
      read
        (λ d.
          collect (λ s. elim (host.unmarshal_task s) [ none ↦ none | some t ↦ some t.id ]) d.nodes)
        (host.kapi_get (join (join etcd_minion_space m) "log") w)

  -- What follows the Get of the minion's directory.
  unfoldable pub submit_to : String → Task → Reply × W → Option Error × W
  unfolding join
  submit_to m t (failed e, w) = (some e, w)
  submit_to m t (found d, w) =
      host.kapi_create_in_order (join (join etcd_minion_space m) "queue") (host.marshal_task t) w

  unfoldable pub minion_submit_task : String → Task → W → Option Error × W
  unfolding submit_to join
  minion_submit_task m t w = submit_to m t (host.kapi_get (join etcd_minion_space m) w)

-- ===== src/Client/Log.antt =====
-- A client and a minion meet in etcd: what the one writes, the other reads.
use gru.Prelude.{ℕ, String, none, some, List, [], ◌∷◌, ◌++◌, ◌≡◌, arith, ap, ◌∙◌, subst}
use gru.Errors.{ok}
use gru.Task.{Task}
use gru.Utils.Git.{GitRepo}
use gru.Minion.{Host, Leaf, Directory, Reply, found, failed}
use gru.Minion.Keys.{new_minion, join, save_task_result, etcd_minion_space}
use gru.Minion.Queue.{check_queue}
use gru.Minion.Queue.Contract.{
  decoded, decoded-append, all_deleted, IsBacklog, check_queue-IsBacklog,
}
use gru.Client.{read, parsed, minion_task_result, submit_to, minion_submit_task}

module _ {W : Type 0} (host : Host W) where
  -- A key that is set has its value.
  unfoldable pub KeepsValues : Type 0
  KeepsValues =
      (k v : String) (w w₁ : W)
      → host.kapi_set k v w ≡ (none, w₁)
      → (w₂ : W) × (host.kapi_get k w₁ ≡ (found (record { value = v; nodes = [] }), w₂))

  unfoldable pub nodes_of : Reply × W → List Leaf
  nodes_of (failed e, w) = []
  nodes_of (found d, w) = d.nodes

  -- A node that is created in order comes last in its directory, which is made if it is missing.
  unfoldable pub AppendsInOrder : Type 0
  AppendsInOrder =
      (k v : String) (w w₁ : W)
      → host.kapi_create_in_order k v w ≡ (none, w₁)
      → (n : Leaf) × (d : Directory) × (w₂ : W) × (n.value ≡ v)
        × (d.nodes ≡ nodes_of (host.kapi_get_sorted k w) ++ (n ∷ []))
        × (host.kapi_get_sorted k w₁ ≡ (found d, w₂))

  -- JSON gives back the task that it was made of.
  unfoldable pub RoundTrips : Task → Type 0
  RoundTrips t = host.unmarshal_task (host.marshal_task t) ≡ some t

  module _ (name id : String) (repo : GitRepo) (concurrency : ℕ) where
    -- A client that asks for the result of a task gets the task as the minion last saved it, if
    -- the save went well.
    pub minion_task_result-save :
        KeepsValues
        → (t : Task) (w w₁ : W)
        → save_task_result host (new_minion name id repo concurrency) t w ≡ (none, w₁)
        → RoundTrips t
        → (w₂ : W) × (minion_task_result host id t.id w₁ ≡ (ok t, w₂))
    unfolding KeepsValues RoundTrips save_task_result new_minion minion_task_result read parsed
    minion_task_result-save keeps t w w₁ saved back =
        let key = join (join (join etcd_minion_space id) "log") t.id in
        let (w₂, at) = keeps key (host.marshal_task t) w w₁ saved in
        (
          w₂,
          ap (read (λ d. parsed (host.unmarshal_task d.value))) at ∙ ap (λ o. (parsed o, w₂)) back,
        )

    -- The queue before a task is submitted.
    pub queue_of : W → List Leaf
    queue_of w = nodes_of (host.kapi_get_sorted (join (join etcd_minion_space id) "queue") w)

    submit_to-queue :
        AppendsInOrder
        → (t : Task) (p : Reply × W) (w₁ : W) → submit_to host id t p ≡ (none, w₁)
        → RoundTrips t
        → (w₂ : W) × (check_queue host (new_minion name id repo concurrency) w₁
            ≡ (ok (decoded host (queue_of p.1) ++ (t ∷ [])), w₂))
    unfolding AppendsInOrder RoundTrips submit_to new_minion queue_of IsBacklog
    submit_to-queue appends t (failed e, w) w₁ h back = ground (arith, h)
    submit_to-queue appends t (found d₀, w) w₁ h back =
        let dir = join (join etcd_minion_space id) "queue" in
        let (n, d, w₂, same_value, last, at) = appends dir (host.marshal_task t) w w₁ h in
        let m = new_minion name id repo concurrency in
        let sent =
          subst (λ p. IsBacklog host p (check_queue host m w₁)) at
            (check_queue-IsBacklog host m w₁) in
        (
          _,
          sent
              ∙ ap (λ ts. (ok ts, all_deleted host d.nodes w₂))
                  (ap (decoded host) last
                    ∙ decoded-append host (queue_of w) n t
                        (ap host.unmarshal_task same_value ∙ back)),
        )

    -- A task that a client submits without an error is sent by the next check of the minion's
    -- queue, behind the tasks that were in the queue before it.
    pub check_queue-submit :
        AppendsInOrder
        → (t : Task) (w w₁ : W) → minion_submit_task host id t w ≡ (none, w₁)
        → RoundTrips t
        → (w₂ : W) × (check_queue host (new_minion name id repo concurrency) w₁ ≡ (
          ok (decoded host (queue_of (host.kapi_get (join etcd_minion_space id) w).1) ++ (t ∷ [])),
          w₂,
        ))
    unfolding minion_submit_task
    check_queue-submit appends t w w₁ =
        submit_to-queue appends t (host.kapi_get (join etcd_minion_space id) w) w₁

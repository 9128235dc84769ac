-- ===== src/Minion/Queue/Contract.antt =====
-- What `checkQueue` sends, and when it dereferences nil.
use gru.Prelude.{
  ℕ, Bool-cases, true, false, none, some, List, [], ◌∷◌, ◌++◌, ◌≡◌, refl, sym, ◌∙◌, ◌≢◌, ◌⊎◌, inl,
  inr, ==_iff, arith, ap, Option-cases,
}
use gru.Errors.{Error, etcd, Result, ok, err, panic}
use gru.Task.{Task}
use gru.Minion.{Host, Leaf, Reply, found, failed}
use gru.Minion.Keys.{Minion}
use gru.Minion.Queue.{drain, is_returned, backlog, check_queue, error_code_key_not_found}

-- An error of etcd that is not the absence of the key.
pub IsUnhandled : Error → Type 0
IsUnhandled e = (code : ℕ) × (e ≡ etcd code) × (code ≢ error_code_key_not_found)

pub IsUnhandled-of : (e : Error) → is_returned e ≡ false → IsUnhandled e
unfolding IsUnhandled is_returned
IsUnhandled-of (etcd code) h = (code, refl, ground (arith, h, ==_iff code 100))
IsUnhandled-of _ h = ground (arith, h)

returned_of : (e : Error) → is_returned e ≡ true → ¬ IsUnhandled e
unfolding IsUnhandled is_returned
returned_of e h (code, e_eq, ne) =
    ground (arith, sym (ap is_returned e_eq) ∙ h, ne, ==_iff code 100)

pub IsUnhandled-cases :
    (e : Error)
    → (¬ IsUnhandled e) × (is_returned e ≡ true) ⊎ IsUnhandled e × (is_returned e ≡ false)
IsUnhandled-cases e = elim (Bool-cases (is_returned e)) [
  | inl h ↦ inl (returned_of e h, h)
  | inr h ↦ inr (IsUnhandled-of e h, h)
]

module _ {W : Type 0} (host : Host W) where
  -- The tasks that stand in the nodes, in the order of the nodes.
  pub decoded : List Leaf → List Task
  decoded [] = []
  decoded (n ∷ ns) =
      let ts = decoded ns in elim (host.unmarshal_task n.value) [ none ↦ ts | some t ↦ t ∷ ts ]

  pub decoded-append :
      (ns : List Leaf) (n : Leaf) (t : Task)
      → host.unmarshal_task n.value ≡ some t
      → decoded (ns ++ (n ∷ [])) ≡ decoded ns ++ (t ∷ [])
  unfolding decoded
  decoded-append [] n t e = ground (arith, e)
  decoded-append (k ∷ ns) n t e = ground (arith, e, decoded-append ns n t e)

  -- The world after the nodes are deleted, in their order.
  pub all_deleted : List Leaf → W → W
  all_deleted [] w = w
  all_deleted (n ∷ ns) w = all_deleted ns (host.kapi_delete n.key w)

  -- What `checkQueue` makes of each reply.
  unfoldable pub IsBacklog : Reply × W → Result (List Task) × W → Type 0
  IsBacklog (found d, w) r = r ≡ (ok (decoded d.nodes), all_deleted d.nodes w)
  IsBacklog (failed e, w) r =
      (¬ IsUnhandled e) × (r ≡ (err e, w)) ⊎ IsUnhandled e × (r ≡ (panic, w))

  module _ (m : Minion) where
    drain-decoded : (ns : List Leaf) (w : W) → drain host m ns w ≡ (decoded ns, all_deleted ns w)
    unfolding drain decoded all_deleted
    drain-decoded [] w = refl
    drain-decoded (n ∷ ns) w =
        let ih = drain-decoded ns (host.kapi_delete n.key w) in
        elim (Option-cases (host.unmarshal_task n.value)) [
          | inl e ↦ ground (arith, e, ih)
          | inr (t, e) ↦ ground (arith, e, ih)
        ]

    backlog-IsBacklog : (p : Reply × W) → IsBacklog p (backlog host m p)
    unfolding backlog IsBacklog
    backlog-IsBacklog (found d, w) = ground (arith, drain-decoded d.nodes w)
    backlog-IsBacklog (failed e, w) = elim (IsUnhandled-cases e) [
      | inl (u, h) ↦ inl (u, rw h refl)
      | inr (u, h) ↦ inr (u, rw h refl)
    ]

    -- `checkQueue` sends the tasks of the nodes that decode, in the order of the queue, and deletes
    -- every node.  When the queue cannot be read, it returns the error and does nothing else, unless
    -- the error is one of etcd other than a missing key: on those it dereferences the nil response.
    pub check_queue-IsBacklog :
        (w : W) → IsBacklog (host.kapi_get_sorted m.queue_dir w) (check_queue host m w)
    unfolding check_queue
    check_queue-IsBacklog w = backlog-IsBacklog (host.kapi_get_sorted m.queue_dir w)

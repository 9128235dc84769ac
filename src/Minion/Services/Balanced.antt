-- ===== src/Minion/Services/Balanced.antt =====
-- What one goroutine takes and offers in a move.
use gru.Prelude.{
  ℕ, String, Bool-cases, Option, none, some, List, [], ◌∷◌, ◌++◌, ◌≡◌, refl, inl, inr, arith, sym,
  ap, subst, if◌then◌else◌,
}
use gru.Errors.{Error}
use gru.Task.{Task}
use gru.Classifier.{Classifier, Registry, get}
use gru.Graph.Sets.{MapSet}
use gru.Minion.{Host, Leaf, Reply, found, failed, Event}
use gru.Minion.Keys.{Minion, save_task_result}
use gru.Minion.Queue.{is_returned, listen, accepted, forwarded}
use gru.Minion.Services.{
  Service, selecting, watching, classifying, reading, draining, sending, stamping, forwarding,
  returned, goes, panics, leave, classified, read, take_node, advance, hear, resume, deleted_by,
  marked, marked_all, unsaved, is_deletion, deleted_at, lost_at,
}
use gru.Minion.Services.History.{offer}

leave-offer : (c : Option ℕ) → offer (leave c) ≡ []
unfolding leave
leave-offer none = refl
leave-offer (some time) = refl

module _ (sets : MapSet) {W : Type 0} (host : Host W) (m : Minion) (registry : Registry W) where
  read-Balanced :
      (c : Option ℕ) (p : Reply × W) (y : Service) (w : W)
      → read sets host m registry c p ≡ goes y w
      → offer y ≡ []
  unfolding read
  read-Balanced c (found d, v) y w e = cc e
  read-Balanced c (failed r, v) y w e = elim (Bool-cases (is_returned r)) [
    | inl h ↦
        let same : goes (leave c) v ≡ goes y w = ground (arith, h, e) in cc (same, leave-offer c)
    | inr h ↦ let none_such : panics ≡ goes y w = ground (arith, h, e) in absurd (cc none_such)
  ]

  take-Balanced :
      (c : Option ℕ) (o : Option Task) (ns : List Leaf) (y : Service) (v w : W)
      → take_node sets host m registry c o ns v ≡ goes y w
      → elim o [ none ↦ [] | some t ↦ t ∷ [] ] ≡ offer y
  unfolding take_node
  take-Balanced c none ns y v w e = cc e
  take-Balanced c (some t) ns y v w e = cc e

  classified-Balanced :
      (c : Option ℕ) (ks : List String) (o : Option (Classifier × Option Error × W)) (y : Service)
      (w : W)
      → classified sets host m registry c ks o ≡ goes y w
      → offer y ≡ []
  unfolding classified
  classified-Balanced c ks none y w e = absurd (cc e)
  classified-Balanced c ks (some r) y w e = cc e

  forwarded-Balanced :
      (t : Task) (r : Option Error × W) (y : Service) (w : W)
      → hear sets host m registry (forwarded host m t r) ≡ goes y w
      → t ∷ [] ≡ offer y ++ elim r.0 [ none ↦ [] | some e ↦ t ∷ [] ]
  unfolding hear forwarded
  forwarded-Balanced t (none, v) y w e = cc e
  forwarded-Balanced t (some r, v) y w e =
      let same : watching ≡ y = cc e in ap (λ x. offer x ++ t ∷ []) same

  accepted-Balanced :
      (o : Option Task) (v : W) (y : Service) (w : W)
      → hear sets host m registry (accepted host m o v) ≡ goes y w
      → marked_all host m o v ≡ offer y ++ unsaved host m o v
  unfolding hear accepted
  accepted-Balanced none v y w e = let same : watching ≡ y = cc e in ap (λ x. offer x ++ []) same
  accepted-Balanced (some t) v y w e =
      forwarded-Balanced (marked host m t v) (save_task_result host m (marked host m t v) v) y w e

  -- What is deleted at an event is newly offered, or lost.
  pub hear-Balanced :
      (ev : Event) (v : W) (y : Service) (w : W)
      → hear sets host m registry (listen host m ev v) ≡ goes y w
      → deleted_at host m ev v ≡ offer y ++ lost_at host m ev v
  unfolding hear listen
  hear-Balanced ev v y w e = elim (Bool-cases (is_deletion host m ev)) [
    | inl h ↦ let same : watching ≡ y = ground (arith, e, h) in rw h (ap (λ x. offer x ++ []) same)
    | inr h ↦ rw h (
        accepted-Balanced (host.unmarshal_task ev.node.value) (host.kapi_delete ev.node.key v) y w (
          subst
            (λ b.
              hear sets host m registry (
                if b
                then (none, v)
                else accepted host m (host.unmarshal_task ev.node.value)
                    (host.kapi_delete ev.node.key v))
              ≡ goes y w)
            h e))
  ]

  pub resume-offer :
      (x y : Service) (t : Task) → resume x ≡ some (t, y) → (offer x ≡ t ∷ []) × (offer y ≡ [])
  unfolding resume
  resume-offer (sending c u ns) y t e = (cc e, cc e)
  resume-offer (forwarding u) y t e = (cc e, cc e)
  resume-offer selecting y t e = absurd (cc e)
  resume-offer watching y t e = absurd (cc e)
  resume-offer (classifying c ks) y t e = absurd (cc e)
  resume-offer (reading c) y t e = absurd (cc e)
  resume-offer (draining c ns) y t e = absurd (cc e)
  resume-offer (stamping time) y t e = absurd (cc e)
  resume-offer returned y t e = absurd (cc e)

  -- What is deleted in a move is newly offered.
  pub advance-Balanced :
      (x y : Service) (v w : W)
      → advance sets host m registry x v ≡ goes y w
      → offer x ++ deleted_by host m x ≡ offer y
  unfolding advance read take_node
  advance-Balanced (classifying c (k ∷ ks)) y v w e =
      sym (classified-Balanced c ks (get registry k v) y w e)
  advance-Balanced (classifying none []) y v w e = cc e
  advance-Balanced (classifying (some time) []) y v w e = cc e
  advance-Balanced (reading c) y v w e =
      sym (read-Balanced c (host.kapi_get_sorted m.queue_dir v) y w e)
  advance-Balanced (draining c []) y v w e = cc (e, leave-offer c)
  advance-Balanced (draining c (n ∷ ns)) y v w e =
      take-Balanced c (host.unmarshal_task n.value) ns y (host.kapi_delete n.key v) w e
  advance-Balanced (stamping time) y v w e = cc e
  advance-Balanced selecting y v w e = cc e
  advance-Balanced watching y v w e = cc e
  advance-Balanced (sending c t ns) y v w e = cc e
  advance-Balanced (forwarding t) y v w e = cc e
  advance-Balanced returned y v w e = cc e

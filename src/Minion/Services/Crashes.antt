-- ===== src/Minion/Services/Crashes.antt =====
-- Where the services of a minion panic, and how the runner gets to a task.
use gru.Prelude.{
  ℕ, String, ◌<◌, Bool-cases, false, Option, none, some, List, [], ◌∷◌, ◌++◌, ◌≡◌, refl, arith, ◌⊎◌,
  inl, inr, ◌↔◌,
}
use gru.Errors.{Error}
use gru.Task.{Task}
use gru.Classifier.{Classifier, Registry, get}
use gru.Graph.Sets.{MapSet}
use gru.Minion.{Host, Leaf, Reply, found, failed}
use gru.Minion.Keys.{Minion}
use gru.Minion.Process.{Fate, finished, aborted, process_task}
use gru.Minion.Runs.Contract.{IsSound}
use gru.Minion.Process.Contract.{IsSaved, process_task-IsSaved}
use gru.Minion.Queue.{is_returned}
use gru.Minion.Queue.Contract.{IsUnhandled, IsUnhandled-of, IsUnhandled-cases}
use gru.Minion.Services.{
  Service, selecting, watching, classifying, reading, draining, sending, stamping, forwarding,
  returned, panics, Services, read, take_node, advance, classified, Crash, gives_up, send_on_closed,
  nil_task, catalog_panic,
}

module _ (sets : MapSet) {W : Type 0} (host : Host W) (m : Minion) (registry : Registry W) where
  -- A goroutine is about to read the queue, and etcd answers with an error that is not handled; or
  -- it is about to evaluate a classifier, and the provider panics.
  pub IsFatal : Service → W → Type 0
  IsFatal x v =
      ((c : Option ℕ) × (e : Error) × (w : W) × (x ≡ reading c)
        × (host.kapi_get_sorted m.queue_dir v ≡ (failed e, w))
        × IsUnhandled e)
      ⊎ ((c : Option ℕ) × (key : String) × (ks : List String) × (x ≡ classifying c (key ∷ ks))
          × (get registry key v ≡ none))

  pub HasFatal : Services W → Type 0
  HasFatal s =
      (before after : List Service) × (x : Service) × (s.services ≡ before ++ x ∷ after)
      × IsFatal x s.world

  read-panics :
      (c : Option ℕ) (p : Reply × W)
      → read sets host m registry c p ≡ panics
      → (e : Error) × (w : W) × (p ≡ (failed e, w)) × IsUnhandled e
  unfolding read
  read-panics c (found d, w) h = absurd (cc h)
  read-panics c (failed e, w) h = elim (Bool-cases (is_returned e)) [
    | inl r ↦ absurd (ground (arith, r, h))
    | inr r ↦ (e, w, refl, IsUnhandled-of e r)
  ]

  take-ne_panics :
      (c : Option ℕ) (o : Option Task) (ns : List Leaf) (w : W)
      → ¬ (take_node sets host m registry c o ns w ≡ panics)
  unfolding take_node
  take-ne_panics c none ns w h = cc h
  take-ne_panics c (some t) ns w h = cc h

  classified-panics :
      (c : Option ℕ) (ks : List String) (o : Option (Classifier × Option Error × W))
      → classified sets host m registry c ks o ≡ panics
      → o ≡ none
  unfolding classified
  classified-panics c ks none h = refl
  classified-panics c ks (some r) h = absurd (cc h)

  advance-IsFatal : (x : Service) (w : W) → advance sets host m registry x w ≡ panics → IsFatal x w
  unfolding advance IsFatal
  advance-IsFatal (reading c) w h =
      let (e, w₁, reply, unhandled) = read-panics c (host.kapi_get_sorted m.queue_dir w) h in
      inl (c, e, w₁, refl, reply, unhandled)
  advance-IsFatal (classifying c (k ∷ ks)) w h =
      inr (c, k, ks, refl, classified-panics c ks (get registry k w) h)
  advance-IsFatal (draining c (n ∷ ns)) w h =
      absurd (take-ne_panics c (host.unmarshal_task n.value) ns (host.kapi_delete n.key w) h)
  advance-IsFatal (classifying none []) w h = absurd (cc h)
  advance-IsFatal (classifying (some time) []) w h = absurd (cc h)
  advance-IsFatal (draining c []) w h = absurd (cc h)
  advance-IsFatal (stamping time) w h = absurd (cc h)
  advance-IsFatal selecting w h = absurd (cc h)
  advance-IsFatal watching w h = absurd (cc h)
  advance-IsFatal (sending c t ns) w h = absurd (cc h)
  advance-IsFatal (forwarding t) w h = absurd (cc h)
  advance-IsFatal returned w h = absurd (cc h)

  saved-ne_aborted : (p : Fate W) → IsSaved sets host m p → ¬ (p ≡ aborted)
  unfolding IsSaved
  saved-ne_aborted (finished q) saved h = cc h
  saved-ne_aborted aborted bad h = bad

  fatal_of :
      (s : Services W)
      → IsSound host
      → 0 < m.concurrency
      → s.queue_closed ≡ false
      → Crash sets host m registry s
      → HasFatal s
  unfolding HasFatal
  fatal_of s sound busy shown (gives_up before after x at h) =
      (before, after, x, at, advance-IsFatal x s.world h)
  fatal_of s sound busy shown (send_on_closed before after x y t at e shut) =
      absurd (cc (shut, shown))
  fatal_of s sound busy shown (nil_task shut free) = absurd (cc (shut, shown))
  fatal_of s sound busy shown (catalog_panic t has h) = absurd (
      saved-ne_aborted (process_task sets host m t s.world)
        (process_task-IsSaved sets host m sound busy t s.world).1 h)

  read-crash :
      (c : Option ℕ) (e : Error) (w : W) (p : Reply × W)
      → p ≡ (failed e, w)
      → IsUnhandled e
      → read sets host m registry c p ≡ panics
  unfolding read
  read-crash c e w p reply unhandled = elim (IsUnhandled-cases e) [
    | inl (handled, r) ↦ absurd (handled unhandled)
    | inr (u, r) ↦ rw reply (rw r refl)
  ]

  advance-panics : (x : Service) (w : W) → IsFatal x w → advance sets host m registry x w ≡ panics
  unfolding advance IsFatal classified
  advance-panics x w (inl (c, e, w₁, same, reply, unhandled)) =
      rw same (read-crash c e w₁ (host.kapi_get_sorted m.queue_dir w) reply unhandled)
  advance-panics x w (inr (c, key, ks, same, bad)) = rw same (rw bad refl)

  Crash-of : (s : Services W) → HasFatal s → Crash sets host m registry s
  unfolding HasFatal
  Crash-of s (before, after, x, at, fatal) =
      gives_up before after x at (advance-panics x s.world fatal)

  -- On a minion with a worker, where no module adds a resource that dereferences nil in its own
  -- methods, where each value in the queue decodes to a task or to an error and not to a nil task, and
  -- whose channel of tasks is open: one of the goroutines can panic exactly when one is about to read
  -- the queue and etcd answers with an error other than a missing key, or is about to evaluate a
  -- classifier whose provider panics.
  pub Crash-HasFatal :
      (s : Services W)
      → IsSound host
      → 0 < m.concurrency
      → s.queue_closed ≡ false
      → Crash sets host m registry s ↔ HasFatal s
  Crash-HasFatal s sound busy shown = (fatal_of s sound busy shown, Crash-of s)

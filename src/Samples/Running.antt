-- ===== src/Samples/Running.antt =====
-- The services of a minion with one task in its queue.
use gru.Prelude.{refl, Bool, lookup, insert, ◌+◌, ◌≡◌, ◌↔◌, true, false, none, [], ◌∷◌, arith}
use gru.Task.{Task}
use gru.Graph.Sets.{list_set}
use gru.Minion.Keys.{Minion, join, serve, set_name, set_lastseen}
use gru.Minion.Services.{
  selecting, watching, classifying, reading, draining, sending, Services, receiving, processing,
  took, handed, start, started, read, take_node, advance, resume, pick, receive, Run, here, next,
  Crash,
}
use gru.Minion.Services.Conserved.{start-conserved}
use gru.Minion.Services.History.{all_taken, all_lost, all_handed, all_ended, count}
use gru.Minion.Services.Stopped.{IsStranded, Run-IsStranded}
use gru.Minion.Services.Crashes.{HasFatal, Crash-HasFatal}
use gru.Minion.Services.Delivered.{IsDelivered, offer-IsDelivered}
use gru.Samples.Minions.{World, host, repo, empty, a_task}

abbrev queued : World
queued = record empty { queue = record { key = "/queue/7"; value = "7" } ∷ [] }

abbrev minion : Minion
minion = record {
  name = "web";
  root_dir = "/gru/minion/1";
  queue_dir = "/gru/minion/1/queue";
  log_dir = "/gru/minion/1/log";
  classifier_dir = "/gru/minion/1/classifier";
  id = "1";
  git_repo = repo;
  concurrency = 1;
}

-- The world once `Serve` has set the name and the time.
abbrev served : World → World
served w = record w {
  values = ("/gru/minion/1/name", "web") ∷ ("/gru/minion/1/lastseen", "12") ∷ [];
}

abbrev at_start : World → Services World
at_start w = record {
  world = w;
  services = classifying none [] ∷ reading none ∷ selecting ∷ watching ∷ [];
  runner = receiving;
  queue_closed = false;
  done_closed = false;
}

abbrev taken_one : Services World
taken_one = record (at_start (served empty)) {
  services = classifying none [] ∷ sending none a_task [] ∷ selecting ∷ watching ∷ [];
}

abbrev busy_one : Services World
busy_one = record (at_start (served empty)) {
  services = classifying none [] ∷ draining none [] ∷ selecting ∷ watching ∷ [];
  runner = processing a_task;
}

one_taken :
    Run list_set host minion []
      (at_start (served queued))
      (took (a_task ∷ []) [] ∷ took [] [] ∷ [])
      taken_one
unfolding advance read take_node lookup
one_taken =
    next
      (next here (
        pick (classifying none [] ∷ []) (selecting ∷ watching ∷ []) (reading none)
          (draining none queued.queue) (served queued) refl refl))
      (pick (classifying none [] ∷ []) (selecting ∷ watching ∷ []) (draining none queued.queue)
        (sending none a_task []) (served empty) refl refl)

one_handed :
    Run list_set host minion []
      (at_start (served queued))
      (handed a_task ∷ took (a_task ∷ []) [] ∷ took [] [] ∷ [])
      busy_one
unfolding resume
one_handed = next one_taken (
    receive (classifying none [] ∷ []) (selecting ∷ watching ∷ []) (sending none a_task [])
      (draining none []) a_task refl refl refl refl)

start-conserved_example :
    (all_handed (handed a_task ∷ took (a_task ∷ []) [] ∷ took [] [] ∷ []) ≡ a_task ∷ [])
    × ((p : Task → Bool) → count p (a_task ∷ []) ≡ count p (a_task ∷ []) + count p [] + count p [])
unfolding all_handed all_ended all_taken all_lost start started serve set_name set_lastseen join
    insert
start-conserved_example =
    start-conserved list_set host minion [] queued (at_start (served queued))
      (handed a_task ∷ took (a_task ∷ []) [] ∷ took [] [] ∷ []) busy_one refl one_handed

abbrev shut : Services World → Services World
shut s = record s { queue_closed = true }

one_stranded :
    Run list_set host minion []
      (shut (at_start (served queued)))
      (took (a_task ∷ []) [] ∷ took [] [] ∷ [])
      (shut taken_one)
unfolding advance read take_node lookup
one_stranded =
    next
      (next here (
        pick (classifying none [] ∷ []) (selecting ∷ watching ∷ []) (reading none)
          (draining none queued.queue) (served queued) refl refl))
      (pick (classifying none [] ∷ []) (selecting ∷ watching ∷ []) (draining none queued.queue)
        (sending none a_task []) (served empty) refl refl)

Run-IsStranded_example :
    IsStranded list_set host minion []
      (shut (at_start (served queued)))
      (took (a_task ∷ []) [] ∷ took [] [] ∷ [])
      (shut taken_one)
Run-IsStranded_example =
    Run-IsStranded list_set host minion [] (shut (at_start (served queued)))
      (took (a_task ∷ []) [] ∷ took [] [] ∷ []) (shut taken_one) refl one_stranded

Crash-HasFatal_example :
    Crash list_set host minion [] (at_start (served queued))
    ↔ HasFatal list_set host minion [] (at_start (served queued))
Crash-HasFatal_example =
    Crash-HasFatal list_set host minion [] (at_start (served queued)) (λ config w. tt) (omega arith)
      refl

offer-IsDelivered_example :
    IsDelivered list_set host minion [] taken_one
      (classifying none [] ∷ draining none [] ∷ selecting ∷ watching ∷ [])
      a_task
unfolding resume
offer-IsDelivered_example =
    offer-IsDelivered list_set host minion [] taken_one (classifying none [] ∷ [])
      (selecting ∷ watching ∷ []) (sending none a_task []) (draining none []) a_task
      (λ config w. tt) (omega arith) refl refl refl

-- ===== src/Client/Interface.antt =====
-- client/client.go: the interface of a client, and its implementation by client/etcd.go.
use gru.Prelude.{ℕ, String, Option, List}
use gru.Errors.{Error, Result, ok, err, panic}
use gru.Task.{Task}
use gru.Classifier.{Classifier}
use gru.Minion.{Host}
use gru.Client.{
  minion_list, minion_name, minion_lastseen, minion_classifier, minion_classifier_keys,
  minion_task_result, minion_task_queue, minion_task_log, minion_submit_task,
}
use gru.Client.Search.{Probe, has_classifier, has_task_result}

pub record Client (W : Type 0) : Type 0 where
  pub list : W → Result (List String) × W
  pub name : String → W → Result String × W
  pub lastseen : String → W → Result ℕ × W
  pub classifier : String → String → W → Result Classifier × W
  pub classifier_keys : String → W → Result (List String) × W
  pub with_classifier_key : String → W → Result (List String) × W
  pub task_result : String → String → W → Result Task × W
  pub with_task_result : String → W → Result (List String) × W
  pub task_queue : String → W → Result (List Task) × W
  pub task_log : String → W → Result (List String) × W
  pub submit_task : String → Task → W → Option Error × W

-- What a search of the minions comes to, which depends on the schedule of its workers.
abbrev pub Search : Type 0 → Type 0
Search W = Probe W → List String → W → List String × W

module _ {W : Type 0} (host : Host W) (search : Search W) where
  -- A search starts from the list of the minions.
  unfoldable pub search_minions : Probe W → Result (List String) × W → Result (List String) × W
  search_minions probe (ok us, w) = let (rs, w₁) = search probe us w in (ok rs, w₁)
  search_minions probe (err e, w) = (err e, w)
  search_minions probe (panic, w) = (panic, w)

  unfoldable pub minion_with_classifier_key : String → W → Result (List String) × W
  unfolding search_minions
  minion_with_classifier_key key w = search_minions (has_classifier host key) (minion_list host w)

  unfoldable pub minion_with_task_result : String → W → Result (List String) × W
  unfolding search_minions
  minion_with_task_result t w = search_minions (has_task_result host t) (minion_list host w)

  unfoldable pub etcd_minion_client : Client W
  etcd_minion_client = record {
    list = minion_list host;
    name = minion_name host;
    lastseen = minion_lastseen host;
    classifier = minion_classifier host;
    classifier_keys = minion_classifier_keys host;
    with_classifier_key = minion_with_classifier_key;
    task_result = minion_task_result host;
    with_task_result = minion_with_task_result;
    task_queue = minion_task_queue host;
    task_log = minion_task_log host;
    submit_task = minion_submit_task host;
  }

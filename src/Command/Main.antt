-- ===== src/Command/Main.antt =====
-- gructl/gructl.go: the twelve commands under their names.
use gru.Prelude.{ℕ, String, Option, List}
use gru.Errors.{Error}
use gru.Graph.Dot.{Dot}
use gru.Graph.Sets.{MapSet}
use gru.Classifier.{Registry}
use gru.Catalog.{Line}
use gru.Minion.{Host}
use gru.Minion.Keys.{Minion, Site}
use gru.Minion.Services.{Services}
use gru.Client.Interface.{Client}
use gru.Command.{Row, Exit, done, exits, crashed, Act, after, ◌>>=◌, Flags, Cli, give}
use gru.Command.Inspect.{
  exec_list_command, exec_lastseen_command, exec_info_command, exec_classifier_command,
  exec_queue_command,
}
use gru.Command.Results.{exec_log_command, exec_result_command}
use gru.Command.Push.{Submission, exec_push_command}
use gru.Command.Report.{exec_report_command}
use gru.Command.Local.{LocalFlags, exec_apply_command, exec_serve_command}
use gru.Command.Draw.{Drawing, exec_graph_command}
pub mod Used
pub mod Catalogs
pub mod Usage

pub data Name : Type 0 where
  apply classifier graph info lastseen list log push queue report result serve : Name

-- What a command comes to: a table, the log of a catalog, the graphs, or a minion at its services.
pub data Output (W : Type 0) : Type 0 where
  table : List Row → Output W
  logged : List Line → Output W
  drawn : List Dot → Output W
  serving : Minion → Services W → Output W

-- What the commands use that load a catalog or start a minion.
pub record Local (W : Type 0) : Type 1 where
  pub sets : MapSet
  pub host : Host W
  pub num_cpu : ℕ
  pub hostname : W → String × Option Error
  pub site : Site W
  pub registry : Registry W
  pub flags : LocalFlags

module _ {W : Type 0} where
  unfoldable pub printed : {A : Type 0} → (A → Output W) → Exit A × W → Exit (Output W) × W
  printed f (done a, w) = (done (f a), w)
  printed f (exits e code, w) = (exits e code, w)
  printed f (crashed, w) = (crashed, w)

  -- The graphs that were printed before an error are left out.
  unfoldable pub shown : Drawing × W → Exit (Output W) × W
  shown ((dots, done _), w) = (done (drawn dots), w)
  shown ((dots, exits e code), w) = (exits e code, w)
  shown ((dots, crashed), w) = (crashed, w)

  -- What a start that failed has written is left out.
  unfoldable pub begun : W → Exit (Minion × Services W) → Exit (Output W) × W
  begun w (done (m, s)) = (done (serving m s), s.world)
  begun w (exits e code) = (exits e code, w)
  begun w crashed = (crashed, w)

  unfoldable pub execute : Name → Cli W → Client W → Flags → Local W → W → Exit (Output W) × W
  unfolding give printed shown begun
  execute apply cli klient flags l w =
      printed logged (exec_apply_command l.sets l.host l.num_cpu l.flags w)
  execute graph cli klient flags l w = shown (exec_graph_command l.sets l.host l.flags w)
  execute serve cli klient flags l w =
      begun w (exec_serve_command l.sets l.host l.num_cpu l.hostname l.site l.registry l.flags w)
  execute list cli klient flags l w = printed table (exec_list_command cli klient flags w)
  execute info cli klient flags l w = printed table (exec_info_command cli klient flags w)
  execute push cli klient flags l w =
      printed (λ s. table s.table) (exec_push_command cli klient flags w)
  execute classifier cli klient flags l w =
      printed table (exec_classifier_command cli klient flags w)
  execute report cli klient flags l w = printed table (exec_report_command klient flags w)
  execute queue cli klient flags l w = printed table (exec_queue_command cli klient flags w)
  execute log cli klient flags l w = printed table (exec_log_command cli klient flags w)
  execute lastseen cli klient flags l w = printed table (exec_lastseen_command cli klient flags w)
  execute result cli klient flags l w = printed table (exec_result_command cli klient flags w)

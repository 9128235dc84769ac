-- ===== src/Resource/Service/Systemd.antt =====
-- resource/service_linux.go: services as units of systemd.  The D-Bus interface of systemd is the
-- parameter `Systemd`.
use Prim.Native.String.{◌++◌ as str_append}
use gru.Prelude.{
  String, Bool, true, false, Option, none, some, List, [], ◌∷◌, ◌≡◌, str_eq, mem_str, if◌then◌else◌,
}
use gru.Errors.{Error, Result, ok, panic, no_systemd, invalid_unit_state}
use gru.Utils.File.{Answer, answer, refused}
use gru.Resource.{State, Property}
use gru.Resource.Base.{Base}
pub mod Contract

-- The value of a property of a unit: a string, or something else.
pub data Value : Type 0 where
  text : String → Value
  no_text : Value

pub record Systemd (W : Type 0) : Type 0 where
  pub is_running : W → Bool
  -- dbus.New: the connection, or an error.
  pub connect : W → Option Error × W
  pub get_unit_property : String → String → W → Answer Value
  -- The job is waited for; its result comes over a channel.
  pub start_unit : String → String → W → Answer String × W
  pub stop_unit : String → String → W → Answer String × W
  pub enable_unit_files : List String → W → Option Error × W
  pub disable_unit_files : List String → W → Option Error × W
  pub reload : W → Option Error × W
  pub disconnect : W → W

-- `connected` is whether `conn` is not nil.
pub record Service (W : Type 0) : Type 0 where
  pub base : Base W
  pub enable : Bool
  pub unit : String
  pub connected : Bool

module _ {W : Type 0} (systemd : Systemd W) where
  unfoldable pub new_service : String → W → Answer (Service W)
  new_service name w =
      if systemd.is_running w
      then answer (record {
        base = record {
          type = "service";
          name = name;
          state = "running";
          require = [];
          present_states_list = "present" ∷ "running" ∷ [];
          absent_states_list = "absent" ∷ "stopped" ∷ [];
          concurrent = true;
          property_list = [];
          subscribe = [];
        };
        enable = true;
        unit = str_append name ".service";
        connected = false;
      })
      else refused no_systemd

  -- The service keeps the connection, which is nil on an error.
  unfoldable pub initialize : Service W → W → Option Error × Service W × W
  initialize s w =
      let (e, w₁) = systemd.connect w in
      elim e [
        | none ↦ (none, record s { connected = true }, w₁)
        | some x ↦ (some x, record s { connected = false }, w₁)
      ]

  -- A call on a connection that is nil.
  unfoldable pub on_conn : {A : Type 0} → Service W → A → Result A
  on_conn s a = if s.connected then ok a else panic

  -- A value that is asserted to be a string.
  unfoldable pub string_of : Value → Result String
  string_of (text value) = ok value
  string_of no_text = panic

  -- The switch over the value of ActiveState.
  unfoldable pub current_of : String → String
  current_of value =
      if mem_str value ("active" ∷ "reloading" ∷ "activating" ∷ [])
      then "running"
      else if mem_str value ("inactive" ∷ "failed" ∷ "deactivating" ∷ [])
      then "stopped"
      else "unknown"

  unfoldable pub state_at : String → Result String → Result (State × Option Error)
  unfolding current_of
  state_at want (ok value) = ok (record { current = current_of value; want = want }, none)
  state_at want (Result.err e) = Result.err e
  state_at want panic = panic

  -- What follows the call for ActiveState.
  unfoldable pub active_state : String → Answer Value → Result (State × Option Error)
  unfolding state_at string_of
  active_state want (refused e) = ok (record { current = "unknown"; want = want }, some e)
  active_state want (answer v) = state_at want (string_of v)

  unfoldable pub evaluate : Service W → W → Result (State × Option Error)
  unfolding active_state
  evaluate s w =
      if s.connected
      then active_state s.base.state (systemd.get_unit_property s.unit "ActiveState" w)
      else panic

  -- What follows StartUnit and StopUnit: the result of the job only goes to the log.
  unfoldable pub job_done : Answer String × W → Option Error × W
  job_done (refused e, w) = (some e, w)
  job_done (answer result, w) = (none, w)

  unfoldable pub create : Service W → W → Result (Option Error × W)
  unfolding on_conn job_done
  create s w = on_conn s (job_done (systemd.start_unit s.unit "replace" w))

  unfoldable pub delete : Service W → W → Result (Option Error × W)
  unfolding on_conn job_done
  delete s w = on_conn s (job_done (systemd.stop_unit s.unit "replace" w))

  unfoldable pub close : Service W → W → Result (Option Error × W)
  unfolding on_conn
  close s w = on_conn s (none, systemd.disconnect w)

  unfoldable pub enable_unit : Service W → W → Option Error × W
  enable_unit s = systemd.enable_unit_files (s.unit ∷ [])

  unfoldable pub disable_unit : Service W → W → Option Error × W
  disable_unit s = systemd.disable_unit_files (s.unit ∷ [])

  -- The switch over the value of UnitFileState.
  unfoldable pub enabled_of : String → Answer Bool
  enabled_of value =
      if mem_str value ("enabled" ∷ "static" ∷ "enabled-runtime" ∷ "linked" ∷ "linked-runtime" ∷ [])
      then answer true
      else if mem_str value ("disabled" ∷ "masked" ∷ "masked-runtime" ∷ [])
      then answer false
      else refused invalid_unit_state

  abbrev pub same : Bool → Bool → Bool
  same true b = b
  same false true = false
  same false false = true

  abbrev pub compared : Bool → Answer Bool → Answer Bool
  compared want (answer enabled) = answer (same want enabled)
  compared want (refused e) = refused e

  unfoldable pub file_state : Bool → Answer Value → Result (Answer Bool)
  unfolding enabled_of
  file_state want (refused e) = ok (refused e)
  file_state want (answer (text value)) = ok (compared want (enabled_of value))
  file_state want (answer no_text) = panic

  unfoldable pub is_enable_synced : Service W → W → Result (Answer Bool)
  unfolding file_state
  is_enable_synced s w =
      if s.connected
      then file_state s.enable (systemd.get_unit_property s.unit "UnitFileState" w)
      else panic

  -- What follows the action.
  unfoldable pub reloaded : Option Error × W → Option Error × W
  reloaded (some e, w) = (some e, w)
  reloaded (none, w) = systemd.reload w

  unfoldable pub set_enable : Service W → W → Result (Option Error × W)
  unfolding on_conn reloaded enable_unit disable_unit
  set_enable s w = on_conn s (reloaded (if s.enable then enable_unit s w else disable_unit s w))

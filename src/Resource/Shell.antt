-- ===== src/Resource/Shell.antt =====
-- resource/shell.go: a shell command.
use gru.Prelude.{String, Bool, true, Option, none, some, List, [], ◌∷◌, str_eq, if◌then◌else◌}
use gru.Errors.{Error, Result, ok, panic}
use gru.Resource.{State}
use gru.Resource.Base.{Base}
use gru.Utils.Git.{Exec, dropped}
pub mod Converge

pub record Shell (W : Type 0) : Type 0 where
  pub base : Base W
  pub command : String
  pub creates : String
  pub mute : Bool

unfoldable pub new_shell : {W : Type 0} → String → Shell W
new_shell name = record {
  base = record {
    type = "shell";
    name = name;
    state = "present";
    require = [];
    present_states_list = "present" ∷ [];
    absent_states_list = "absent" ∷ [];
    concurrent = true;
    property_list = [];
    subscribe = [];
  };
  command = name;
  creates = "";
  mute = Bool.false;
}

-- `missing` is os.IsNotExist of os.Stat, `fields` is strings.Fields.
module _ {W : Type 0} (exec : Exec W) (missing : String → W → Bool)
    (fields : String → List String) where
  unfoldable pub evaluate : Shell W → W → State × Option Error × W
  evaluate s w =
      let current =
        if str_eq s.creates ""
        then "absent"
        else if missing s.creates w
        then "absent"
        else "present" in
      (record { current = current; want = s.base.state }, none, w)

  -- exec.Command(args[0], args[1:]...)
  unfoldable pub run_fields : List String → W → Result (Option Error × W)
  unfolding dropped
  run_fields [] w = panic
  run_fields (cmd ∷ args) w = ok (dropped (exec cmd args w))

  unfoldable pub create : Shell W → W → Result (Option Error × W)
  unfolding run_fields
  create s w = run_fields (fields s.command) w

  unfoldable pub delete : Shell W → W → Option Error × W
  delete s w = (none, w)

  unfoldable pub update : Shell W → W → Option Error × W
  update s w = (none, w)

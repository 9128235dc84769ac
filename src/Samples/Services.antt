-- ===== src/Samples/Services.antt =====
-- A unit of systemd, whose world is the state of its file, and a variable of rc.conf, whose world
-- is its value.
use gru.Prelude.{String, false, Option, none, some, [], ◌∷◌, str_eq, if◌then◌else◌}
use gru.Utils.Git.{Exec}
use gru.Resource.{Resource}
use gru.Resource.Base.{Base}
use gru.Resource.Sysrc.{Sysrc, evaluate, create}

abbrev base_of : {W : Type 0} → String → String → String → Base W
base_of type name state = record {
  type = type;
  name = name;
  state = state;
  require = [];
  present_states_list = "present" ∷ [];
  absent_states_list = "absent" ∷ [];
  concurrent = false;
  property_list = [];
  subscribe = [];
}

-- The variable "keyrate".
abbrev sysrc : Exec String
sysrc cmd [] w = ("", none, w)
sysrc cmd (a ∷ args) w = if str_eq a "keyrate" then (w, none, w) else ("", none, "fast")

abbrev find_match : String → Option (String × String)
find_match out = some ("keyrate", out)

abbrev keyrate : String → Sysrc String
keyrate state = record { base = base_of "sysrc" "keyrate" state; value = "fast" }

abbrev variable : Resource String
variable = record {
  id = "sysrc[keyrate]";
  initialize = λ w. some (none, w);
  close = λ w. some (none, w);
  validate = λ w. some (none, w);
  dependencies = [];
  present_states = "present" ∷ [];
  absent_states = "absent" ∷ [];
  is_concurrent = false;
  evaluate = λ w. some (evaluate sysrc find_match (keyrate "absent") w);
  create = λ w. some (create sysrc find_match (keyrate "absent") w);
  delete = λ w. some (none, w);
  properties = [];
  subscribed_to = [];
}

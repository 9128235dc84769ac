-- ===== src/Resource.antt =====
-- resource/resource.go and resource/property.go: the interface of resources. Its methods act on a
-- world `W`, which also holds what a resource keeps between its own methods.
pub mod Registry
pub mod Builtin
pub mod Base
pub mod Collection
pub mod Package
pub mod Shell
pub mod File
pub mod Directory
pub mod Link
pub mod Settle
pub mod Service
pub mod Sysrc
pub mod Vsphere
use gru.Prelude.{String, Bool, Option, List, Map}
use gru.Errors.{Error}

-- What a method that only reports an error does.
abbrev pub Action : Type 0 → Type 0
Action W = W → Option Error × W

-- A method of a resource of any kind: `none` is a dereference of nil in it, which ends the program.
abbrev pub Method : Type 0 → Type 0
Method W = W → Option (Option Error × W)

pub record State : Type 0 where
  pub current : String
  pub want : String

pub record Property (W : Type 0) : Type 0 where
  pub name : String
  pub set : Method W
  pub is_synced : W → Option (Bool × Option Error × W)

-- A Lua function stands for a trigger; `PCall` runs it, which makes a panic in it an error.
abbrev pub TriggerMap : Type 0 → Type 0
TriggerMap W = Map (Action W)

pub record Resource (W : Type 0) : Type 0 where
  pub id : String
  pub initialize : Method W
  pub close : Method W
  pub validate : Method W
  pub dependencies : List String
  pub present_states : List String
  pub absent_states : List String
  pub is_concurrent : Bool
  pub evaluate : W → Option (State × Option Error × W)
  pub create : Method W
  pub delete : Method W
  pub properties : List (Property W)
  pub subscribed_to : TriggerMap W

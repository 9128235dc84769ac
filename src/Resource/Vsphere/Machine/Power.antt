-- ===== src/Resource/Vsphere/Machine/Power.antt =====
-- resource/vsphere_vm.go: the power state of a machine, and its removal, which powers it off.
use gru.Prelude.{String, Bool, true, false, not, ◌&&◌, Option, none, some, str_eq, if◌then◌else◌}
use gru.Errors.{Error, resource_absent, invalid_power_state}
use gru.Utils.File.{Answer, answer, refused, ◌>>>◌}
use gru.Resource.Vsphere.{Vcenter, Found, found, not_found, find_failed, on_found, waited}
use gru.Resource.Vsphere.Machine.{Machines, VirtualMachine, find}

module _ {W : Type 0} (vcenter : Vcenter W) (machines : Machines W) where
  unfoldable pub same_power : String → Answer String → Bool × Option Error
  same_power want (answer state) = (str_eq want state, none)
  same_power want (refused e) = (false, some e)

  unfoldable pub power_synced : String → Found → W → Bool × Option Error
  unfolding same_power
  power_synced want (not_found e) w = (true, some resource_absent)
  power_synced want (find_failed e) w = (false, some e)
  power_synced want (found obj) w = same_power want (machines.power_state obj w)

  unfoldable pub is_vm_power_state_synced : VirtualMachine W → W → Bool × Option Error
  unfolding power_synced find
  is_vm_power_state_synced vm w =
      if str_eq vm.power_state ""
      then (true, none)
      else power_synced vm.power_state (find vcenter machines vm w) w

  abbrev pub address_known : Answer String × W → Option Error × W
  address_known (refused e, w) = (some e, w)
  address_known (answer ip, w) = (none, w)

  -- The operation of a power state.
  unfoldable pub operation : String → String → W → Answer String × W
  operation state obj w =
      if str_eq state "poweredOn"
      then machines.power_on obj w
      else if str_eq state "poweredOff"
      then machines.power_off obj w
      else machines.suspend obj w

  abbrev pub is_power_state : String → Bool
  is_power_state state =
      if str_eq state "poweredOn"
      then true
      else if str_eq state "poweredOff"
      then true
      else str_eq state "suspended"

  unfoldable pub set_power : VirtualMachine W → String → W → Option Error × W
  unfolding operation waited
  set_power vm obj w =
      if is_power_state vm.power_state
      then (waited vcenter (operation vm.power_state obj w) >>> λ w₁.
          if vm.wait_for_ip && str_eq vm.power_state "poweredOn"
          then address_known (machines.wait_for_ip obj w₁)
          else (none, w₁))
      else (some invalid_power_state, w)

  unfoldable pub set_vm_power_state : VirtualMachine W → W → Option Error × W
  unfolding on_found set_power find
  set_vm_power_state vm w = on_found vcenter (find vcenter machines vm w) (set_power vm) w

  -- A machine that is not off is powered off.
  unfoldable pub made_off : String → String → W → Option Error × W
  unfolding waited
  made_off obj state w =
      if not (str_eq state "poweredOff")
      then waited vcenter (machines.power_off obj w)
      else (none, w)

  -- What follows the power state.
  unfoldable pub removed : String → Answer String → W → Option Error × W
  unfolding made_off waited
  removed obj (refused e) w = (some e, w)
  removed obj (answer state) w =
      made_off obj state w >>> λ w₁. waited vcenter (vcenter.destroy obj w₁)

  unfoldable pub delete : VirtualMachine W → W → Option Error × W
  unfolding on_found removed find
  delete vm w =
      on_found vcenter (find vcenter machines vm w)
        (λ obj w₁. removed obj (machines.power_state obj w₁) w₁) w

-- ===== src/Resource/Vsphere/Machine.antt =====
-- resource/vsphere_vm.go: virtual machines.  What its methods call besides `Vcenter` is the
-- parameter `Machines`.
use gru.Prelude.{
  ℕ, zero, suc, String, Bool, true, false, not, ◌&&◌, Option, none, some, List, [], ◌∷◌, str_eq,
  ◌==◌, if◌then◌else◌, ℤ, pos, same_int, is_positive,
}
use gru.Errors.{
  Error, Result, ok, panic, resource_absent, invalid_mks, invalid_guest, no_pool, no_datastore,
  no_hardware, invalid_power_state,
}
use gru.Utils.File.{Answer, answer, refused, ◌>>>◌}
use gru.Resource.{State}
use gru.Resource.Vsphere.{
  BaseVsphere, Vcenter, Found, found, not_found, find_failed, vsphere_defaults, found_state,
  on_found, waited,
}
use gru.Resource.Vsphere as Vspheres
use gru.Resource.Vsphere.Cluster.{same}
pub mod Power
pub mod Create
pub mod Contract

pub record Hardware : Type 0 where
  pub cpu : ℤ
  pub cores : ℤ
  pub memory : ℤ
  pub version : String

pub record ExtraConfig : Type 0 where
  pub cpu_hotadd : Bool
  pub cpu_hotremove : Bool
  pub memory_hotadd : Bool

pub record TemplateConfig : Type 0 where
  pub use_template : String
  pub power_on : Bool
  pub mark_as_template : Bool

-- The `config` of a machine as it was read; the flags are pointers.
pub record MachineInfo : Type 0 where
  pub num_cpu : ℤ
  pub num_cores : ℤ
  pub memory_mb : ℤ
  pub cpu_hotadd : Option Bool
  pub cpu_hotremove : Option Bool
  pub memory_hotadd : Option Bool
  pub annotation : String

-- What is to be changed by a reconfiguration.
pub data Change : Type 0 where
  change_hardware : ℤ → ℤ → ℤ → Change
  change_extra : ExtraConfig → Change
  change_annotation : String → Change

pub record CreateSpec : Type 0 where
  pub name : String
  pub hardware : Hardware
  pub guest_id : String
  pub annotation : String
  pub max_mks_connections : ℤ
  pub path_name : String

pub record CloneSpec : Type 0 where
  pub folder : String
  pub datastore : String
  pub pool : String
  pub host : Option String
  pub template : Bool
  pub power_on : Bool

pub record Machines (W : Type 0) : Type 0 where
  pub find_machine : String → W → Found
  pub find_pool : String → W → Found
  -- The property `config`, which may be nil.
  pub machine_info : String → W → Answer (Option MachineInfo)
  pub power_state : String → W → Answer String
  pub power_on : String → W → Answer String × W
  pub power_off : String → W → Answer String × W
  pub suspend : String → W → Answer String × W
  pub wait_for_ip : String → W → Answer String × W
  pub reconfigure : String → Change → W → Answer String × W
  -- CreateVM of a folder, with the pool and perhaps a host; Clone of a machine to a folder.
  pub create_machine : String → CreateSpec → String → Option String → W → Answer String × W
  pub clone_machine : String → String → String → CloneSpec → W → Answer String × W
  pub datastore_path : String → String → String

pub record VirtualMachine (W : Type 0) : Type 0 where
  pub vsphere : BaseVsphere W
  pub hardware : Option Hardware
  pub extra_config : Option ExtraConfig
  pub template_config : Option TemplateConfig
  pub guest_id : String
  pub annotation : String
  pub max_mks_connections : ℤ
  pub host : String
  pub pool : String
  pub datastore : String
  pub power_state : String
  pub wait_for_ip : Bool

unfoldable pub new_virtual_machine : {W : Type 0} → String → VirtualMachine W
new_virtual_machine name = record {
  vsphere = vsphere_defaults "vm" name "/";
  hardware = none;
  extra_config = none;
  template_config = none;
  guest_id = "otherGuest";
  annotation = "";
  max_mks_connections = pos 8;
  host = "";
  pool = "";
  datastore = "";
  power_state = "";
  wait_for_ip = false;
}

-- A synced flag beside its error: on a missing machine the flag is true.
abbrev pub Synced : Type 0
Synced = Result (Bool × Option Error)

module _ {W : Type 0} (vcenter : Vcenter W) (machines : Machines W) where
  unfoldable pub find : VirtualMachine W → W → Found
  find vm = machines.find_machine (vcenter.join vm.vsphere.path vm.vsphere.base.name)

  -- What follows `vmProperties`: `compare` is on the configuration, whose nil is dereferenced.
  unfoldable pub on_info : (MachineInfo → Synced) → Answer (Option MachineInfo) → Synced
  on_info compare (refused e) = ok (false, some e)
  on_info compare (answer none) = panic
  on_info compare (answer (some info)) = compare info

  unfoldable pub on_properties : (MachineInfo → Synced) → Found → W → Synced
  unfolding on_info
  on_properties compare (not_found e) w = ok (true, some resource_absent)
  on_properties compare (find_failed e) w = ok (false, some e)
  on_properties compare (found obj) w = on_info compare (machines.machine_info obj w)

  unfoldable pub same_hardware : Hardware → MachineInfo → Synced
  same_hardware hw info = ok (
    same_int hw.cpu info.num_cpu
        && same_int hw.cores info.num_cores
        && same_int hw.memory info.memory_mb,
    none,
  )

  unfoldable pub is_vm_hardware_synced : VirtualMachine W → W → Synced
  unfolding on_properties same_hardware find
  is_vm_hardware_synced vm w = elim vm.hardware [
    | none ↦ ok (true, none)
    | some hw ↦ on_properties (same_hardware hw) (find vm w) w
  ]

  -- A flag that differs ends the comparison; one that is nil is dereferenced.
  unfoldable pub flag_synced : Bool → Option Bool → Synced → Synced
  flag_synced want none rest = panic
  flag_synced want (some flag) rest = if same want flag then rest else ok (false, none)

  unfoldable pub same_extra : ExtraConfig → MachineInfo → Synced
  unfolding flag_synced
  same_extra extra info = flag_synced extra.cpu_hotadd info.cpu_hotadd (
      flag_synced extra.cpu_hotremove info.cpu_hotremove
        (flag_synced extra.memory_hotadd info.memory_hotadd (ok (true, none))))

  unfoldable pub is_vm_extra_config_synced : VirtualMachine W → W → Synced
  unfolding on_properties same_extra find
  is_vm_extra_config_synced vm w = elim vm.extra_config [
    | none ↦ ok (true, none)
    | some extra ↦ on_properties (same_extra extra) (find vm w) w
  ]

  unfoldable pub is_vm_annotation_synced : VirtualMachine W → W → Synced
  unfolding on_properties find
  is_vm_annotation_synced vm w =
      if str_eq vm.annotation ""
      then ok (true, none)
      else on_properties (λ info. ok (str_eq vm.annotation info.annotation, none)) (find vm w) w

  -- The change of a machine that is looked up.
  unfoldable pub reconfigured : VirtualMachine W → Change → W → Option Error × W
  unfolding on_found waited find
  reconfigured vm change w =
      on_found vcenter (find vm w) (λ obj w₁. waited vcenter (machines.reconfigure obj change w₁)) w

  -- The hardware and the extra configuration are only set where they are given.
  unfoldable pub set_vm_hardware : Hardware → VirtualMachine W → W → Option Error × W
  unfolding reconfigured
  set_vm_hardware hw vm = reconfigured vm (change_hardware hw.cpu hw.cores hw.memory)

  unfoldable pub set_vm_extra_config : ExtraConfig → VirtualMachine W → W → Option Error × W
  unfolding reconfigured
  set_vm_extra_config extra vm = reconfigured vm (change_extra extra)

  unfoldable pub set_vm_annotation : VirtualMachine W → W → Option Error × W
  unfolding reconfigured
  set_vm_annotation vm = reconfigured vm (change_annotation vm.annotation)

  -- What follows the validation of the base.
  abbrev pub settings_valid : VirtualMachine W → Option Error → Option Error
  settings_valid vm (some e) = some e
  settings_valid vm none =
      if not (is_positive vm.max_mks_connections)
      then some invalid_mks
      else if str_eq vm.guest_id ""
      then some invalid_guest
      else if str_eq vm.pool ""
      then some no_pool
      else if str_eq vm.datastore ""
      then some no_datastore
      else none

  unfoldable pub validate : VirtualMachine W → W → Option Error × VirtualMachine W
  unfolding Vspheres.validate
  validate vm w =
      let (e, bv) = Vspheres.validate vcenter vm.vsphere w in
      (settings_valid vm e, record vm { vsphere = bv })

  unfoldable pub evaluate : VirtualMachine W → W → State × Option Error
  unfolding found_state find
  evaluate vm w = found_state vcenter vm.vsphere.base.state (find vm w)

-- ===== src/Resource/Vsphere/Machine/Create.antt =====
-- resource/vsphere_vm.go: a machine is created anew or cloned from a template.
use gru.Prelude.{String, Option, none, some, str_eq, if◌then◌else◌}
use gru.Errors.{Error, no_hardware}
use gru.Resource.Vsphere.{Vcenter, on_found, waited}
use gru.Resource.Vsphere.Machine.{
  Machines, VirtualMachine, Hardware, TemplateConfig, CreateSpec, CloneSpec,
}

-- The folder, the pool, the datastore and perhaps the host of a machine.
pub record Place : Type 0 where
  pub folder : String
  pub pool : String
  pub datastore : String
  pub host : Option String

module _ {W : Type 0} (vcenter : Vcenter W) (machines : Machines W) where
  abbrev pub create_spec : VirtualMachine W → Hardware → String → CreateSpec
  create_spec vm hw datastore = record {
    name = vm.vsphere.base.name;
    hardware = hw;
    guest_id = vm.guest_id;
    annotation = vm.annotation;
    max_mks_connections = vm.max_mks_connections;
    path_name = machines.datastore_path datastore vm.vsphere.base.name;
  }

  unfoldable pub new_vm : VirtualMachine W → Place → W → Option Error × W
  unfolding waited
  new_vm vm p w = elim vm.hardware [
    | none ↦ (some no_hardware, w)
    | some hw ↦
        waited vcenter
          (machines.create_machine p.folder (create_spec vm hw p.datastore) p.pool p.host w)
  ]

  abbrev pub clone_spec : TemplateConfig → Place → CloneSpec
  clone_spec t p = record {
    folder = p.folder;
    datastore = p.datastore;
    pool = p.pool;
    host = p.host;
    template = t.mark_as_template;
    power_on = t.power_on;
  }

  unfoldable pub clone_vm : VirtualMachine W → TemplateConfig → Place → W → Option Error × W
  unfolding on_found waited
  clone_vm vm t p w =
      on_found vcenter (machines.find_machine t.use_template w)
        (λ obj w₁.
          waited vcenter
            (machines.clone_machine obj p.folder vm.vsphere.base.name (clone_spec t p) w₁))
        w

  -- What follows the lookups.
  unfoldable pub placed : VirtualMachine W → Place → W → Option Error × W
  unfolding new_vm clone_vm
  placed vm p w = elim vm.template_config [ none ↦ new_vm vm p w | some t ↦ clone_vm vm t p w ]

  -- The host is looked up where it is given.
  unfoldable pub with_host :
      VirtualMachine W → (Option String → W → Option Error × W) → W → Option Error × W
  unfolding on_found
  with_host vm f w =
      if str_eq vm.host ""
      then f none w
      else on_found vcenter (vcenter.find_host vm.host w) (λ host. f (some host)) w

  unfoldable pub create : VirtualMachine W → W → Option Error × W
  unfolding on_found with_host placed
  create vm w =
      on_found vcenter (vcenter.find_folder vm.vsphere.path w)
        (λ folder w₁.
          on_found vcenter (machines.find_pool vm.pool w₁)
            (λ pool w₂.
              on_found vcenter (vcenter.find_datastore vm.datastore w₂)
                (λ datastore. with_host vm (λ host.
                  placed vm
                    (record { folder = folder; pool = pool; datastore = datastore; host = host })))
                w₂)
            w₁)
        w

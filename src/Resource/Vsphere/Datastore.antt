-- ===== src/Resource/Vsphere/Datastore.antt =====
-- resource/vsphere_datastore.go: NFS datastores.
use gru.Prelude.{
  String, Bool, true, false, not, ◌&&◌, Option, none, some, List, [], ◌∷◌, ◌++◌, str_eq,
  if◌then◌else◌,
}
use gru.Errors.{Error, resource_absent, no_hosts, no_nfs_server, no_nfs_path}
use gru.Utils.File.{Answer, answer, refused, ◌>>>◌}
use gru.Utils.Strings.{new_list, contains}
use gru.Resource.{State}
use gru.Resource.Vsphere.{
  BaseVsphere, Vcenter, Found, found, not_found, find_failed, NasSpec, vsphere_defaults,
  found_state, on_found,
}
use gru.Resource.Vsphere as Vspheres
pub mod Contract

pub record DatastoreNfs (W : Type 0) : Type 0 where
  pub vsphere : BaseVsphere W
  pub hosts : List String
  pub nfs_server : String
  pub nfs_type : String
  pub nfs_path : String
  pub mode : String
  pub should_mount_on_hosts : List String

unfoldable pub new_datastore_nfs : {W : Type 0} → String → DatastoreNfs W
new_datastore_nfs name = record {
  vsphere = vsphere_defaults "datastore_nfs" name "";
  hosts = [];
  nfs_server = "";
  nfs_type = "NFS";
  nfs_path = "";
  mode = "readWrite";
  should_mount_on_hosts = [];
}

module _ {W : Type 0} (vcenter : Vcenter W) where
  unfoldable pub find : DatastoreNfs W → W → Found
  find ds = vcenter.find_datastore (vcenter.join ds.vsphere.path ds.vsphere.base.name)

  abbrev pub nas_spec : DatastoreNfs W → NasSpec
  nas_spec ds = record {
    remote_host = ds.nfs_server;
    remote_path = ds.nfs_path;
    local_path = ds.vsphere.base.name;
    access_mode = ds.mode;
    type = ds.nfs_type;
  }

  -- A call on the datastore system of a host.
  unfoldable pub on_system : Answer String → (String → W → Option Error × W) → W → Option Error × W
  on_system (answer system) f w = f system w
  on_system (refused e) f w = (some e, w)

  unfoldable pub mount_on : DatastoreNfs W → String → W → Option Error × W
  unfolding on_found on_system
  mount_on ds host w =
      on_found vcenter (vcenter.find_host host w)
        (λ obj w₁.
          on_system (vcenter.datastore_system obj w₁)
            (λ system. vcenter.create_nas system (nas_spec ds)) w₁)
        w

  -- The loop over hosts, up to the first error.
  unfoldable pub mount_all : DatastoreNfs W → List String → W → Option Error × W
  unfolding mount_on
  mount_all ds [] w = (none, w)
  mount_all ds (host ∷ hosts) w = mount_on ds host w >>> mount_all ds hosts

  -- The names of the attached hosts, up to the first error.
  unfoldable pub names_of : List String → W → Answer (List String)
  names_of [] w = answer []
  names_of (obj ∷ objs) w = elim (vcenter.object_name obj w) [
    | refused e ↦ refused e
    | answer name ↦ elim (names_of objs w) [
      | refused e ↦ refused e
      | answer names ↦ answer (name ∷ names)
    ]
  ]

  -- make([]string, len(hosts)) has an empty name for each host.
  abbrev pub blank_names : List String → List String
  blank_names [] = []
  blank_names (obj ∷ objs) = "" ∷ blank_names objs

  -- The loop over the hosts of the resource: those where the datastore is to be mounted, and
  -- whether it is in sync.
  unfoldable pub compare_hosts : List String → List String → List String → Bool → List String × Bool
  compare_hosts names [] should synced = (should, synced)
  compare_hosts names (host ∷ hosts) should synced =
      if not (contains names (vcenter.base_name host))
      then compare_hosts names hosts (should ++ host ∷ []) false
      else compare_hosts names hosts should synced

  -- What follows the names.
  unfoldable pub compared :
      DatastoreNfs W → List String → Answer (List String) → Answer Bool × DatastoreNfs W
  unfolding compare_hosts
  compared ds objs (refused e) = (refused e, ds)
  compared ds objs (answer names) =
      let (should, synced) =
        compare_hosts (new_list (blank_names objs ++ names)) ds.hosts ds.should_mount_on_hosts
          true in
      (answer synced, record ds { should_mount_on_hosts = should })

  -- What follows the attached hosts.
  unfoldable pub attached : DatastoreNfs W → Answer (List String) → W → Answer Bool × DatastoreNfs W
  unfolding compared names_of
  attached ds (refused e) w = (refused e, ds)
  attached ds (answer objs) w = compared ds objs (names_of objs w)

  -- What follows the lookup.
  unfoldable pub found_hosts : DatastoreNfs W → Found → W → Answer Bool × DatastoreNfs W
  unfolding attached
  found_hosts ds (found datastore) w = attached ds (vcenter.attached_hosts datastore w) w
  found_hosts ds (not_found e) w = (refused resource_absent, ds)
  found_hosts ds (find_failed e) w = (refused e, ds)

  -- The resource keeps the hosts where the datastore is to be mounted.
  unfoldable pub is_hosts_property_synced : DatastoreNfs W → W → Answer Bool × DatastoreNfs W
  unfolding found_hosts find
  is_hosts_property_synced ds w = found_hosts ds (find ds w) w

  unfoldable pub set_hosts_property : DatastoreNfs W → W → Option Error × W
  unfolding mount_all
  set_hosts_property ds = mount_all ds ds.should_mount_on_hosts

  -- The base was validated with a result.
  abbrev pub some_hosts : List String → Option Error → Option Error
  some_hosts hosts (some e) = some e
  some_hosts [] none = some no_hosts
  some_hosts (host ∷ hosts) none = none

  unfoldable pub validate : DatastoreNfs W → W → Option Error × DatastoreNfs W
  unfolding Vspheres.validate
  validate ds w =
      let (e, bv) = Vspheres.validate vcenter ds.vsphere w in
      (some_hosts ds.hosts e, record ds { vsphere = bv })

  unfoldable pub evaluate : DatastoreNfs W → W → State × Option Error
  unfolding found_state find
  evaluate ds w = found_state vcenter ds.vsphere.base.state (find ds w)

  unfoldable pub create : DatastoreNfs W → W → Option Error × W
  unfolding mount_all
  create ds w =
      if str_eq ds.nfs_server ""
      then (some no_nfs_server, w)
      else if str_eq ds.nfs_path ""
      then (some no_nfs_path, w)
      else mount_all ds ds.hosts w

  unfoldable pub unmount_from : String → String → W → Option Error × W
  unfolding on_found on_system
  unmount_from datastore host w =
      on_found vcenter (vcenter.find_host host w)
        (λ obj w₁.
          on_system (vcenter.datastore_system obj w₁)
            (λ system. vcenter.remove_datastore system datastore) w₁)
        w

  unfoldable pub unmount_all : String → List String → W → Option Error × W
  unfolding unmount_from
  unmount_all datastore [] w = (none, w)
  unmount_all datastore (host ∷ hosts) w =
      unmount_from datastore host w >>> unmount_all datastore hosts

  unfoldable pub delete : DatastoreNfs W → W → Option Error × W
  unfolding on_found unmount_all find
  delete ds w = on_found vcenter (find ds w) (λ datastore. unmount_all datastore ds.hosts) w

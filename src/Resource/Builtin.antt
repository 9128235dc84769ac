-- ===== src/Resource/Builtin.antt =====
-- The init functions of resource/: the providers and the function that are registered in Lua on
-- each platform.
use gru.Prelude.{String, Bool, Option, none, some, List, [], ◌∷◌, ◌++◌}
use gru.Errors.{Error, Result, ok, err, panic}
use gru.Utils.File.{Answer, answer, refused}
use gru.Resource.File.{File, new_file}
use gru.Resource.Directory.{Directory, new_directory}
use gru.Resource.Link.{Link, new_link}
use gru.Resource.Package.{BasePackage, new_package, new_yum, new_pacman, new_pkgng, releases}
use gru.Resource.Shell.{Shell, new_shell}
use gru.Resource.Service.Systemd as Linux
use gru.Resource.Service.Rc as Freebsd
use gru.Resource.Sysrc.{Sysrc, new_sysrc}
use gru.Resource.Vsphere.Datacenter.{Datacenter, new_datacenter}
use gru.Resource.Vsphere.Cluster.{Cluster, new_cluster}
use gru.Resource.Vsphere.ClusterHost.{ClusterHost, new_cluster_host}
use gru.Resource.Vsphere.Host.{Host, new_host}
use gru.Resource.Vsphere.Machine.{VirtualMachine, new_virtual_machine}
use gru.Resource.Vsphere.Datastore.{DatastoreNfs, new_datastore_nfs}
use gru.Resource.Registry.{Provider, ProviderItem, FunctionItem, register}
pub mod Contract

-- What a provider makes.
pub data Made (W : Type 0) : Type 0 where
  file : File W → Made W
  directory : Directory W → Made W
  link : Link W → Made W
  base_package : BasePackage W → Made W
  shell : Shell W → Made W
  linux_service : Linux.Service W → Made W
  freebsd_service : Freebsd.Service W → Made W
  sysrc : Sysrc W → Made W
  datacenter : Datacenter W → Made W
  cluster : Cluster W → Made W
  cluster_host : ClusterHost W → Made W
  host : Host W → Made W
  vm : VirtualMachine W → Made W
  datastore_nfs : DatastoreNfs W → Made W

-- The files with an init function that are built on a platform.
pub data Platform : Type 0 where
  linux freebsd : Platform

-- What the providers read of the system: the current user and group, the release files, and systemd.
pub record Origin (W : Type 0) : Type 0 where
  pub world : W
  pub user : Answer String
  pub group : Answer String
  pub release_exists : String → Bool
  pub systemd : Linux.Systemd W

module _ {W : Type 0} (origin : Origin W) where
  -- return nil, err
  unfoldable pub answered : {A : Type 0} → (A → Made W) → Answer A → Option (Made W) × Option Error
  answered f (answer a) = (some (f a), none)
  answered f (refused e) = (none, some e)

  unfoldable pub packaged : Result (BasePackage W) → Option (Made W) × Option Error
  packaged (ok p) = (some (base_package p), none)
  packaged (err e) = (none, some e)
  packaged panic = (none, none)

  abbrev pub Item : Type 0
  Item = ProviderItem (Option (Made W))

  abbrev pub resource_item : String → Provider (Option (Made W)) → Item
  resource_item type p = record { type_name = type; provider = p; namespace = "resource" }

  abbrev pub vsphere_item : String → Provider (Option (Made W)) → Item
  vsphere_item type p = record { type_name = type; provider = p; namespace = "vsphere" }

  unfoldable pub file_items : List Item
  unfolding answered
  file_items =
      resource_item "file" (λ n. answered file (new_file origin.user origin.group n))
      ∷ resource_item "directory"
          (λ n. answered directory (new_directory origin.user origin.group n))
      ∷ resource_item "link" (λ n. (some (link (new_link n)), none))
      ∷ []

  unfoldable pub package_items : List Item
  unfolding packaged
  package_items =
      resource_item "package" (λ n. packaged (new_package origin.release_exists releases n))
      ∷ resource_item "yum" (λ n. (some (base_package (new_yum n)), none))
      ∷ resource_item "pacman" (λ n. (some (base_package (new_pacman n)), none))
      ∷ resource_item "pkgng" (λ n. (some (base_package (new_pkgng n)), none))
      ∷ []

  unfoldable pub service_items : Platform → List Item
  unfolding answered
  service_items linux =
      resource_item "service"
        (λ n. answered linux_service (Linux.new_service origin.systemd n origin.world))
      ∷ []
  service_items freebsd =
      resource_item "service" (λ n. (some (freebsd_service (Freebsd.new_service n)), none)) ∷ []

  unfoldable pub shell_items : List Item
  shell_items = resource_item "shell" (λ n. (some (shell (new_shell n)), none)) ∷ []

  unfoldable pub sysrc_items : Platform → List Item
  sysrc_items linux = []
  sysrc_items freebsd = resource_item "sysrc" (λ n. (some (sysrc (new_sysrc n)), none)) ∷ []

  unfoldable pub vsphere_items : List Item
  vsphere_items =
      vsphere_item "datacenter" (λ n. (some (datacenter (new_datacenter n)), none))
      ∷ vsphere_item "cluster" (λ n. (some (cluster (new_cluster n)), none))
      ∷ vsphere_item "cluster_host" (λ n. (some (cluster_host (new_cluster_host n)), none))
      ∷ vsphere_item "host" (λ n. (some (host (new_host n)), none))
      ∷ vsphere_item "vm" (λ n. (some (vm (new_virtual_machine n)), none))
      ∷ vsphere_item "datastore_nfs" (λ n. (some (datastore_nfs (new_datastore_nfs n)), none))
      ∷ []

  -- The registry once the init functions have run, in the order of their files.
  unfoldable pub provider_registry : Platform → List Item
  unfolding register file_items package_items service_items shell_items sysrc_items vsphere_items
  provider_registry p =
      register
        (register
          (register (register (register (register [] file_items) package_items) (service_items p))
            shell_items)
          (sysrc_items p))
        vsphere_items

-- The function `logf` is the argument.
unfoldable pub function_registry : {F : Type 0} → F → List (FunctionItem F)
unfolding register
function_registry logf =
    register [] (record { name = "logf"; namespace = "stdlib"; function = logf } ∷ [])

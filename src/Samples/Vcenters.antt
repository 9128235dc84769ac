-- ===== src/Samples/Vcenters.antt =====
-- A server with one cluster, one machine, and one host, which cannot be read.
use gru.Prelude.{String, ◌≡◌, refl, ap, sym, true, false, none, some, [], ◌∷◌}
use gru.Errors.{other}
use gru.Utils.File.{answer, refused}
use gru.Resource.Vsphere.{
  Vcenter, ClusterInfo, ClusterSettings, found, vsphere_defaults, on_found, waited,
}
use gru.Resource.Vsphere.Cluster.{Cluster}
use gru.Resource.Vsphere.Machine.{Machines, new_virtual_machine}
use gru.Resource.Vsphere.Machine.{find as find_vm}
use gru.Resource.Vsphere.Machine.Power.{delete, removed, made_off}
use gru.Resource.Vsphere.Machine.Contract.{PowersOff, IsDestroyed, delete-IsDestroyed}
use gru.Resource.Vsphere.Datastore.{DatastoreNfs}

record World : Type 0 where
  cluster : ClusterInfo
  power : String

abbrev info_of : ClusterSettings → ClusterInfo
info_of config = record {
  drs_enabled = some config.enable_drs;
  default_behavior = config.drs_behavior;
  das_enabled = some config.enable_ha;
}

abbrev server : Vcenter World
server = record {
  parse_url = λ s. answer s;
  with_user = λ url name password. url;
  join = λ path name. name;
  base_name = λ path. path;
  new_client = λ url insecure w. (none, w);
  logout = λ w. (none, w);
  find_datacenter = λ name w. found "dc";
  find_cluster = λ path w. found "cluster";
  find_host = λ path w. found "host";
  find_datastore = λ path w. found "store";
  find_folder = λ path w. found "folder";
  folder_or_default = λ path w. found "folder";
  create_datacenter = λ folder name w. (none, w);
  create_cluster = λ folder name w. (none, w);
  cluster_info = λ obj w. answer w.cluster;
  reconfigure_cluster = λ obj config w. (answer "task", record w { cluster = info_of config });
  add_host = λ obj spec connected license w. (answer "task", w);
  disconnect_host = λ obj w. (answer "task", w);
  destroy = λ obj w. (answer "task", w);
  wait_task = λ task w. (none, w);
  datastore_system = λ host w. answer "system";
  create_nas = λ system spec w. (none, w);
  remove_datastore = λ system store w. (none, w);
  attached_hosts = λ store w. answer ("host-1" ∷ []);
  object_name = λ host w. answer "esx1";
  host_info = λ host w. refused (other "no permission");
  network_system = λ host w. answer "network";
  update_dns = λ network dns w. (none, w);
  access_manager = λ host w. none;
  change_lockdown = λ host mode w. (none, w);
  make_version = λ text. answer text;
  is_older = λ version least. false;
}

abbrev wanted : ClusterSettings
wanted = record { drs_behavior = "manual"; enable_drs = true; enable_ha = false }

abbrev cluster : Cluster World
cluster = record { vsphere = vsphere_defaults "cluster" "cluster" "/"; config = some wanted }

abbrev before : World
before = record {
  cluster = record {
    drs_enabled = some false;
    default_behavior = "manual";
    das_enabled = some true;
  };
  power = "poweredOn";
}

abbrev store : DatastoreNfs World
store = record {
  vsphere = vsphere_defaults "datastore_nfs" "store" "";
  hosts = "esx1" ∷ "esx2" ∷ [];
  nfs_server = "nfs";
  nfs_type = "NFS";
  nfs_path = "/exported";
  mode = "readWrite";
  should_mount_on_hosts = [];
}

abbrev machines : Machines World
machines = record {
  find_machine = λ path w. found "vm";
  find_pool = λ path w. found "pool";
  machine_info = λ obj w. answer none;
  power_state = λ obj w. answer w.power;
  power_on = λ obj w. (answer "task", record w { power = "poweredOn" });
  power_off = λ obj w. (answer "task", record w { power = "poweredOff" });
  suspend = λ obj w. (answer "task", record w { power = "suspended" });
  wait_for_ip = λ obj w. (answer "10.0.0.1", w);
  reconfigure = λ obj change w. (answer "task", w);
  create_machine = λ folder spec pool host w. (answer "task", w);
  clone_machine = λ obj folder name spec w. (answer "task", w);
  datastore_path = λ datastore name. name;
}

machines-PowersOff : PowersOff server machines
unfolding PowersOff waited
machines-PowersOff obj w w₁ did = sym (ap (λ p. answer (p.1.power)) did)

abbrev switched_off : World
switched_off = record before { power = "poweredOff" }

delete-IsDestroyed_example :
    (obj : String) × (find_vm server machines (new_virtual_machine "web") before ≡ found obj)
    × IsDestroyed server machines obj switched_off
unfolding new_virtual_machine delete removed made_off on_found waited find_vm
delete-IsDestroyed_example =
    delete-IsDestroyed server machines machines-PowersOff (new_virtual_machine "web") before
      switched_off refl

-- ===== src/Resource/Vsphere.antt =====
-- resource/vsphere.go: what the resources of VMware vSphere share.  The client of the vCenter
-- server is the parameter `Vcenter`; its objects and tasks are named by references.  The methods are
-- those of a resource that was initialized.
use Prim.Native.String.{◌++◌ as str_append}
use gru.Prelude.{
  ℕ, String, Bool, true, false, Option, none, some, List, [], ◌∷◌, str_eq, if◌then◌else◌,
}
use gru.Errors.{Error, no_username, no_password, no_endpoint}
use gru.Utils.File.{Answer, answer, refused, ◌>>>◌}
use gru.Resource.{State}
use gru.Resource.Base.{Base}
use gru.Resource.Base as Bases
use gru.Resource.File.{defaults}
pub mod Datacenter
pub mod Cluster
pub mod ClusterHost
pub mod Datastore
pub mod Host
pub mod Machine

-- What the finder returns: an object, or an error, which find.NotFoundError tells apart.
pub data Found : Type 0 where
  found : String → Found
  not_found : Error → Found
  find_failed : Error → Found

pub record ClusterSettings : Type 0 where
  pub drs_behavior : String
  pub enable_drs : Bool
  pub enable_ha : Bool

-- The flags of a configuration that was read are pointers.
pub record ClusterInfo : Type 0 where
  pub drs_enabled : Option Bool
  pub default_behavior : String
  pub das_enabled : Option Bool

pub record ConnectSpec : Type 0 where
  pub host_name : String
  pub port : ℕ
  pub ssl_thumbprint : String
  pub user_name : String
  pub password : String
  pub force : Bool

pub record NasSpec : Type 0 where
  pub remote_host : String
  pub remote_path : String
  pub local_path : String
  pub access_mode : String
  pub type : String

-- A slice of strings, which may be nil.
abbrev pub Slice : Type 0
Slice = Option (List String)

pub record DnsInfo : Type 0 where
  pub dhcp : Bool
  pub address : Slice
  pub domain_name : String
  pub host_name : String
  pub search_domain : Slice

pub record HostInfo : Type 0 where
  pub dns : DnsInfo
  pub lockdown_mode : String
  pub version : String

pub record Vcenter (W : Type 0) : Type 0 where
  -- net/url, with the user set, and path.
  pub parse_url : String → Answer String
  pub with_user : String → String → String → String
  pub join : String → String → String
  pub base_name : String → String
  -- govmomi.NewClient and Logout.
  pub new_client : Option String → Bool → W → Option Error × W
  pub logout : W → Option Error × W
  pub find_datacenter : String → W → Found
  pub find_cluster : String → W → Found
  pub find_host : String → W → Found
  pub find_datastore : String → W → Found
  pub find_folder : String → W → Found
  pub folder_or_default : String → W → Found
  pub create_datacenter : String → String → W → Option Error × W
  pub create_cluster : String → String → W → Option Error × W
  pub cluster_info : String → W → Answer ClusterInfo
  pub reconfigure_cluster : String → ClusterSettings → W → Answer String × W
  pub add_host : String → ConnectSpec → Bool → String → W → Answer String × W
  pub disconnect_host : String → W → Answer String × W
  pub destroy : String → W → Answer String × W
  pub wait_task : String → W → Option Error × W
  -- The datastore system of a host.
  pub datastore_system : String → W → Answer String
  pub create_nas : String → NasSpec → W → Option Error × W
  pub remove_datastore : String → String → W → Option Error × W
  pub attached_hosts : String → W → Answer (List String)
  pub object_name : String → W → Answer String
  -- The property `config` of a host, which is nil where it is not known.
  pub host_info : String → W → Answer (Option HostInfo)
  pub network_system : String → W → Answer String
  pub update_dns : String → DnsInfo → W → Option Error × W
  pub access_manager : String → W → Option Error
  pub change_lockdown : String → String → W → Option Error × W
  -- The package semver: Make, and LT.
  pub make_version : String → Answer String
  pub is_older : String → String → Bool

pub record BaseVsphere (W : Type 0) : Type 0 where
  pub base : Base W
  pub username : String
  pub password : String
  pub endpoint : String
  pub path : String
  pub insecure : Bool
  pub url : Option String

-- What the constructors share.
abbrev pub vsphere_defaults : {W : Type 0} → String → String → String → BaseVsphere W
vsphere_defaults type name path = record {
  base = defaults type name;
  username = "";
  password = "";
  endpoint = "";
  path = path;
  insecure = false;
  url = none;
}

module _ {W : Type 0} (vcenter : Vcenter W) where
  -- fmt.Sprintf("%s[%s@%s]", bv.Type, bv.Name, bv.Endpoint)
  unfoldable pub id : BaseVsphere W → String
  id bv =
      str_append bv.base.type
        (str_append "[" (str_append bv.base.name (str_append "@" (str_append bv.endpoint "]"))))

  -- What follows the parse of the endpoint.
  unfoldable pub with_endpoint : BaseVsphere W → Answer String → Option Error × BaseVsphere W
  with_endpoint bv (refused e) = (some e, bv)
  with_endpoint bv (answer endpoint) =
      (none, record bv { url = some (vcenter.with_user endpoint bv.username bv.password) })

  -- What follows the validation of the base.
  unfoldable pub credentials : BaseVsphere W → Option Error → Option Error × BaseVsphere W
  unfolding with_endpoint
  credentials bv (some e) = (some e, bv)
  credentials bv none =
      if str_eq bv.username ""
      then (some no_username, bv)
      else if str_eq bv.password ""
      then (some no_password, bv)
      else if str_eq bv.endpoint ""
      then (some no_endpoint, bv)
      else with_endpoint bv (vcenter.parse_url bv.endpoint)

  unfoldable pub validate : BaseVsphere W → W → Option Error × BaseVsphere W
  unfolding credentials Bases.validate
  validate bv w = credentials bv (Bases.validate bv.base w).0

  unfoldable pub initialize : BaseVsphere W → W → Option Error × W
  initialize bv = vcenter.new_client bv.url bv.insecure

  unfoldable pub close : BaseVsphere W → W → Option Error × W
  close bv = vcenter.logout

  -- A task that was started is waited for.
  unfoldable pub waited : Answer String × W → Option Error × W
  waited (refused e, w) = (some e, w)
  waited (answer task, w) = vcenter.wait_task task w

  -- What follows a lookup: the call on the object.
  unfoldable pub on_found : Found → (String → W → Option Error × W) → W → Option Error × W
  on_found (found obj) f w = f obj w
  on_found (not_found e) f w = (some e, w)
  on_found (find_failed e) f w = (some e, w)

  unfoldable pub remove_host : String → W → Option Error × W
  unfolding waited
  remove_host host w =
      waited (vcenter.disconnect_host host w) >>> λ w₁. waited (vcenter.destroy host w₁)

  -- The state by what the finder returns.
  unfoldable pub found_state : String → Found → State × Option Error
  found_state want (found obj) = (record { current = "present"; want = want }, none)
  found_state want (not_found e) = (record { current = "absent"; want = want }, none)
  found_state want (find_failed e) = (record { current = "unknown"; want = want }, some e)

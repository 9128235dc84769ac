-- ===== src/Resource/Vsphere/Host.antt =====
-- resource/vsphere_host.go: ESXi hosts.
use gru.Prelude.{
  String, Bool, true, false, ◌&&◌, Option, none, some, List, [], ◌∷◌, str_eq, if◌then◌else◌,
}
use gru.Errors.{Error, Result, ok, panic, resource_absent, old_version}
use gru.Utils.File.{Answer, answer, refused}
use gru.Resource.{State}
use gru.Resource.Vsphere.{
  BaseVsphere, Vcenter, Found, found, not_found, find_failed, Slice, DnsInfo, HostInfo,
  vsphere_defaults, found_state, on_found, remove_host,
}
pub mod Contract

-- `lockdown_mode` is empty and `dns` is nil where they are not managed.
pub record Host (W : Type 0) : Type 0 where
  pub vsphere : BaseVsphere W
  pub lockdown_mode : String
  pub dns : Option DnsInfo

unfoldable pub new_host : {W : Type 0} → String → Host W
new_host name = record {
  vsphere = vsphere_defaults "host" name "/";
  lockdown_mode = "";
  dns = none;
}

abbrev same_items : List String → List String → Bool
same_items [] [] = true
same_items [] (y ∷ ys) = false
same_items (x ∷ xs) [] = false
same_items (x ∷ xs) (y ∷ ys) = str_eq x y && same_items xs ys

-- reflect.DeepEqual tells a nil slice from an empty one.
abbrev pub deep_equal : Slice → Slice → Bool
deep_equal none none = true
deep_equal none (some ys) = false
deep_equal (some xs) none = false
deep_equal (some xs) (some ys) = same_items xs ys

-- What `hostProperties` returns with an error: one of find.NotFoundError, or another.
pub data Properties : Type 0 where
  properties : Option HostInfo → Properties
  no_host : Error → Properties
  no_properties : Error → Properties

module _ {W : Type 0} (vcenter : Vcenter W) where
  unfoldable pub find : Host W → W → Found
  find h = vcenter.find_host (vcenter.join h.vsphere.path h.vsphere.base.name)

  unfoldable pub read : Answer (Option HostInfo) → Properties
  read (answer info) = properties info
  read (refused e) = no_properties e

  -- What follows the lookup.
  unfoldable pub read_found : Found → W → Properties
  unfolding read
  read_found (found obj) w = read (vcenter.host_info obj w)
  read_found (not_found e) w = no_host e
  read_found (find_failed e) w = no_properties e

  unfoldable pub host_properties : Host W → W → Properties
  unfolding read_found find
  host_properties h w = read_found (find h w) w

  -- A host that uses DHCP counts as synced.
  unfoldable pub same_dns : DnsInfo → DnsInfo → Bool
  same_dns want dns =
      if dns.dhcp
      then true
      else if deep_equal dns.address want.address
      then (if str_eq dns.domain_name want.domain_name
          then (if str_eq dns.host_name want.host_name
              then deep_equal dns.search_domain want.search_domain
              else false)
          else false)
      else false

  unfoldable pub dns_synced : DnsInfo → Properties → Result (Answer Bool)
  unfolding same_dns
  dns_synced want (no_host e) = ok (refused resource_absent)
  dns_synced want (no_properties e) = ok (refused e)
  dns_synced want (properties none) = panic
  dns_synced want (properties (some info)) = ok (answer (same_dns want info.dns))

  unfoldable pub is_dns_config_synced : Host W → W → Result (Answer Bool)
  unfolding dns_synced host_properties
  is_dns_config_synced h w = elim h.dns [
    | none ↦ ok (answer true)
    | some want ↦ dns_synced want (host_properties h w)
  ]

  -- What follows the network system.
  unfoldable pub on_network : Answer String → DnsInfo → W → Option Error × W
  on_network (refused e) dns w = (some e, w)
  on_network (answer network) dns w = vcenter.update_dns network dns w

  -- A `dns` that is nil is dereferenced once the network system is there; the property is only set
  -- where it is given.
  unfoldable pub set_dns_config : DnsInfo → Host W → W → Option Error × W
  unfolding on_found on_network find
  set_dns_config dns h w =
      on_found vcenter (find h w) (λ obj w₁. on_network (vcenter.network_system obj w₁) dns w₁) w

  -- Only the error of a missing host is handled: after another one, `host.Config` is nil.
  unfoldable pub lockdown_synced : String → Properties → Result (Answer Bool)
  lockdown_synced mode (no_host e) = ok (refused resource_absent)
  lockdown_synced mode (no_properties e) = panic
  lockdown_synced mode (properties none) = panic
  lockdown_synced mode (properties (some info)) = ok (answer (str_eq mode info.lockdown_mode))

  unfoldable pub is_lockdown_synced : Host W → W → Result (Answer Bool)
  unfolding lockdown_synced host_properties
  is_lockdown_synced h w =
      if str_eq h.lockdown_mode ""
      then ok (answer true)
      else lockdown_synced h.lockdown_mode (host_properties h w)

  -- From the access manager on.
  unfoldable pub change_mode : String → String → Option Error → W → Option Error × W
  change_mode obj mode (some e) w = (some e, w)
  change_mode obj mode none w = vcenter.change_lockdown obj mode w

  -- What follows the version of the product.
  unfoldable pub at_version : String → String → String → Answer String → W → Option Error × W
  unfolding change_mode
  at_version obj mode least (refused e) w = (some e, w)
  at_version obj mode least (answer version) w =
      if vcenter.is_older version least
      then (some (old_version version least), w)
      else change_mode obj mode (vcenter.access_manager obj w) w

  unfoldable pub with_properties :
      String → String → String → Properties → W → Result (Option Error × W)
  unfolding at_version
  with_properties obj mode least (no_host e) w = ok (some e, w)
  with_properties obj mode least (no_properties e) w = ok (some e, w)
  with_properties obj mode least (properties none) w = panic
  with_properties obj mode least (properties (some info)) w =
      ok (at_version obj mode least (vcenter.make_version info.version) w)

  -- What follows the lookup; the host is looked up once more for its properties.
  unfoldable pub lockdown_on : Host W → String → Found → W → Result (Option Error × W)
  unfolding with_properties host_properties
  lockdown_on h least (not_found e) w = ok (some e, w)
  lockdown_on h least (find_failed e) w = ok (some e, w)
  lockdown_on h least (found obj) w =
      with_properties obj h.lockdown_mode least (host_properties h w) w

  unfoldable pub set_lockdown : Host W → W → Result (Option Error × W)
  unfolding lockdown_on find
  set_lockdown h w = elim (vcenter.make_version "6.0.0") [
    | refused e ↦ ok (some e, w)
    | answer least ↦ lockdown_on h least (find h w) w
  ]

  unfoldable pub evaluate : Host W → W → State × Option Error
  unfolding found_state find
  evaluate h w = found_state vcenter h.vsphere.base.state (find h w)

  -- Nothing is created.
  unfoldable pub create : Host W → W → Option Error × W
  create h w = (none, w)

  unfoldable pub delete : Host W → W → Option Error × W
  unfolding on_found remove_host find
  delete h w = on_found vcenter (find h w) (remove_host vcenter) w

-- ===== src/Resource/Vsphere/ClusterHost.antt =====
-- resource/vsphere_cluster_host.go.
use gru.Prelude.{ℕ, String, Bool, true, false, Option}
use gru.Errors.{Error}
use gru.Resource.{State}
use gru.Resource.Vsphere.{
  BaseVsphere, Vcenter, Found, ConnectSpec, vsphere_defaults, found_state, on_found, waited,
  remove_host,
}

pub record ClusterHost (W : Type 0) : Type 0 where
  pub vsphere : BaseVsphere W
  pub esxi_username : String
  pub esxi_password : String
  pub ssl_thumbprint : String
  pub force : Bool
  pub port : ℕ
  pub license : String

unfoldable pub new_cluster_host : {W : Type 0} → String → ClusterHost W
new_cluster_host name = record {
  vsphere = vsphere_defaults "cluster_host" name "/";
  esxi_username = "";
  esxi_password = "";
  ssl_thumbprint = "";
  force = false;
  port = 443;
  license = "";
}

module _ {W : Type 0} (vcenter : Vcenter W) where
  unfoldable pub find : ClusterHost W → W → Found
  find ch = vcenter.find_host (vcenter.join ch.vsphere.path ch.vsphere.base.name)

  unfoldable pub evaluate : ClusterHost W → W → State × Option Error
  unfolding found_state find
  evaluate ch w = found_state vcenter ch.vsphere.base.state (find ch w)

  abbrev pub connect_spec : ClusterHost W → ConnectSpec
  connect_spec ch = record {
    host_name = ch.vsphere.base.name;
    port = ch.port;
    ssl_thumbprint = ch.ssl_thumbprint;
    user_name = ch.esxi_username;
    password = ch.esxi_password;
    force = ch.force;
  }

  unfoldable pub create : ClusterHost W → W → Option Error × W
  unfolding on_found waited
  create ch w =
      on_found vcenter (vcenter.find_cluster ch.vsphere.path w)
        (λ obj w₁. waited vcenter (vcenter.add_host obj (connect_spec ch) true ch.license w₁)) w

  unfoldable pub delete : ClusterHost W → W → Option Error × W
  unfolding on_found remove_host find
  delete ch w = on_found vcenter (find ch w) (remove_host vcenter) w

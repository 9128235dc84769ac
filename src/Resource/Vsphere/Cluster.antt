-- ===== src/Resource/Vsphere/Cluster.antt =====
-- resource/vsphere_cluster.go.
use gru.Prelude.{
  String, Bool, true, false, Option, none, some, List, [], ◌∷◌, str_eq, if◌then◌else◌,
}
use gru.Errors.{Error, Result, ok, panic, resource_absent}
use gru.Utils.File.{Answer, answer, refused}
use gru.Resource.{State}
use gru.Resource.Vsphere.{
  BaseVsphere, Vcenter, Found, found, not_found, find_failed, ClusterSettings, ClusterInfo,
  vsphere_defaults, found_state, on_found, waited,
}
pub mod Contract

-- `config` is nil unless it is given.
pub record Cluster (W : Type 0) : Type 0 where
  pub vsphere : BaseVsphere W
  pub config : Option ClusterSettings

unfoldable pub new_cluster : {W : Type 0} → String → Cluster W
new_cluster name = record { vsphere = vsphere_defaults "cluster" name "/"; config = none }

-- Equality of flags.
abbrev pub same : Bool → Bool → Bool
same true b = b
same false true = false
same false false = true

module _ {W : Type 0} (vcenter : Vcenter W) where
  unfoldable pub find : Cluster W → W → Found
  find c = vcenter.find_cluster (vcenter.join c.vsphere.path c.vsphere.base.name)

  -- The flag for HA is read only where the other two agree.
  unfoldable pub ha_synced : ClusterSettings → Option Bool → Result (Answer Bool)
  ha_synced config none = panic
  ha_synced config (some enabled) = ok (answer (same config.enable_ha enabled))

  unfoldable pub drs_synced : ClusterSettings → ClusterInfo → Option Bool → Result (Answer Bool)
  unfolding ha_synced
  drs_synced config info none = panic
  drs_synced config info (some enabled) =
      if same config.enable_drs enabled
      then (if str_eq config.drs_behavior info.default_behavior
          then ha_synced config info.das_enabled
          else ok (answer false))
      else ok (answer false)

  unfoldable pub info_synced : ClusterSettings → Answer ClusterInfo → Result (Answer Bool)
  unfolding drs_synced
  info_synced config (refused e) = ok (refused e)
  info_synced config (answer info) = drs_synced config info info.drs_enabled

  -- What follows the lookup.
  unfoldable pub found_synced : ClusterSettings → Found → W → Result (Answer Bool)
  unfolding info_synced
  found_synced config (found obj) w = info_synced config (vcenter.cluster_info obj w)
  found_synced config (not_found e) w = ok (refused resource_absent)
  found_synced config (find_failed e) w = ok (refused e)

  unfoldable pub is_cluster_config_synced : Cluster W → W → Result (Answer Bool)
  unfolding found_synced find
  is_cluster_config_synced c w = elim c.config [
    | none ↦ ok (answer true)
    | some config ↦ found_synced config (find c w) w
  ]

  -- A `config` that is nil is dereferenced.
  unfoldable pub set_cluster_config : Cluster W → W → Result (Option Error × W)
  unfolding on_found waited find
  set_cluster_config c w = elim c.config [
    | none ↦ panic
    | some config ↦ ok (
        on_found vcenter (find c w)
          (λ obj w₁. waited vcenter (vcenter.reconfigure_cluster obj config w₁)) w)
  ]

  unfoldable pub evaluate : Cluster W → W → State × Option Error
  unfolding found_state find
  evaluate c w = found_state vcenter c.vsphere.base.state (find c w)

  unfoldable pub create : Cluster W → W → Option Error × W
  unfolding on_found
  create c w =
      on_found vcenter (vcenter.find_folder c.vsphere.path w)
        (λ folder. vcenter.create_cluster folder c.vsphere.base.name) w

  unfoldable pub delete : Cluster W → W → Option Error × W
  unfolding on_found waited find
  delete c w = on_found vcenter (find c w) (λ obj w₁. waited vcenter (vcenter.destroy obj w₁)) w

-- ===== src/Resource/Vsphere/Cluster/Contract.antt =====
-- The configuration of a cluster once it was set.
use gru.Prelude.{String, Bool, true, false, Option, none, some, ◌≡◌, refl, str_eq, eq_refl, arith}
use gru.Errors.{Error, ok}
use gru.Utils.File.{answer}
use gru.Resource.Vsphere.{
  Vcenter, Found, found, not_found, find_failed, ClusterSettings, on_found, waited,
}
use gru.Resource.Vsphere.Cluster.{
  Cluster, same, find, found_synced, info_synced, drs_synced, ha_synced, is_cluster_config_synced,
  set_cluster_config,
}

module _ {W : Type 0} (vcenter : Vcenter W) where
  -- A reconfiguration that went well is read back, unless the behaviour is left empty, which the
  -- server fills in; and the cluster is found as before.
  unfoldable pub Reconfigures : Type 0
  Reconfigures =
      (path obj : String) (config : ClusterSettings) (w w₁ : W)
      → str_eq config.drs_behavior "" ≡ false
      → vcenter.find_cluster path w ≡ found obj
      → waited vcenter (vcenter.reconfigure_cluster obj config w) ≡ (none, w₁)
      → (vcenter.find_cluster path w₁ ≡ found obj)
        × (vcenter.cluster_info obj w₁
            ≡ answer (record {
              drs_enabled = some config.enable_drs;
              default_behavior = config.drs_behavior;
              das_enabled = some config.enable_ha;
            }))

  same_self : (b : Bool) → same b b ≡ true
  same_self true = refl
  same_self false = refl

  pub on_found-none :
      (f : Found) (call : String → W → Option Error × W) (w w₁ : W)
      → on_found vcenter f call w ≡ (none, w₁)
      → (obj : String) × (f ≡ found obj) × (call obj w ≡ (none, w₁))
  unfolding on_found
  on_found-none (found obj) call w w₁ h = (obj, refl, h)
  on_found-none (not_found e) call w w₁ h = cc h
  on_found-none (find_failed e) call w w₁ h = cc h

  -- After the configuration of a cluster was set without an error, it is found in sync, where the
  -- behaviour of DRS is given.
  pub set_cluster_config-synced :
      Reconfigures
      → (c : Cluster W) (config : ClusterSettings) (w w₁ : W) → c.config ≡ some config
      → str_eq config.drs_behavior "" ≡ false
      → set_cluster_config vcenter c w ≡ ok (none, w₁)
      → is_cluster_config_synced vcenter c w₁ ≡ ok (answer true)
  unfolding Reconfigures set_cluster_config is_cluster_config_synced find found_synced info_synced
      drs_synced ha_synced
  set_cluster_config-synced changes c config w w₁ given behaves h =
      let path = vcenter.join c.vsphere.path c.vsphere.base.name in
      let ran : on_found vcenter (vcenter.find_cluster path w)
            (λ obj v. waited vcenter (vcenter.reconfigure_cluster obj config v)) w
          ≡ (none, w₁) =
        ground (arith, given, h) in
      let (obj, at, did) = on_found-none (vcenter.find_cluster path w) _ w w₁ ran in
      let (still, info) = changes path obj config w w₁ behaves at did in
      rw
        (
          given,
          still,
          found_synced,
          info,
          info_synced,
          same_self config.enable_drs,
          eq_refl config.drs_behavior,
          same_self config.enable_ha,
        )
        refl

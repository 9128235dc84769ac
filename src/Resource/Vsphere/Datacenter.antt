-- ===== src/Resource/Vsphere/Datacenter.antt =====
-- resource/vsphere_datacenter.go.
use gru.Prelude.{String, Option}
use gru.Errors.{Error}
use gru.Resource.{State}
use gru.Resource.Vsphere.{BaseVsphere, Vcenter, vsphere_defaults, found_state, on_found, waited}

pub record Datacenter (W : Type 0) : Type 0 where
  pub vsphere : BaseVsphere W

unfoldable pub new_datacenter : {W : Type 0} → String → Datacenter W
new_datacenter name = record { vsphere = vsphere_defaults "datacenter" name "/" }

module _ {W : Type 0} (vcenter : Vcenter W) where
  unfoldable pub evaluate : Datacenter W → W → State × Option Error
  unfolding found_state
  evaluate d w =
      found_state vcenter d.vsphere.base.state (vcenter.find_datacenter d.vsphere.base.name w)

  unfoldable pub create : Datacenter W → W → Option Error × W
  unfolding on_found
  create d w =
      on_found vcenter (vcenter.folder_or_default d.vsphere.path w)
        (λ folder. vcenter.create_datacenter folder d.vsphere.base.name) w

  unfoldable pub delete : Datacenter W → W → Option Error × W
  unfolding on_found waited
  delete d w =
      on_found vcenter (vcenter.find_datacenter d.vsphere.base.name w)
        (λ dc w₁. waited vcenter (vcenter.destroy dc w₁)) w

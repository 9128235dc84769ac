-- ===== src/Resource/Vsphere/Machine/Contract.antt =====
-- What the removal of a virtual machine does.
use gru.Prelude.{
  String, Option, none, ◌≡◌, refl, ap, subst, ◌∙◌, str_eq, eq_iff, Bool-cases, inl, inr, arith,
}
use gru.Errors.{Error}
use gru.Utils.File.{Answer, answer, refused, went_well}
use gru.Resource.Vsphere.{Vcenter, found, waited}
use gru.Resource.Vsphere.Cluster.Contract.{on_found-none}
use gru.Resource.Vsphere.Machine.{Machines, VirtualMachine, find}
use gru.Resource.Vsphere.Machine.Power.{made_off, removed, delete}

module _ {W : Type 0} (vcenter : Vcenter W) (machines : Machines W) where
  -- A machine that was powered off is off.
  unfoldable pub PowersOff : Type 0
  PowersOff =
      (obj : String) (w w₁ : W)
      → waited vcenter (machines.power_off obj w) ≡ (none, w₁)
      → machines.power_state obj w₁ ≡ answer "poweredOff"

  -- The machine was off when it was destroyed.
  pub record IsDestroyed (obj : String) (w' : W) : Type 0 where
    pub at : W
    pub off : machines.power_state obj at ≡ answer "poweredOff"
    pub destroyed : waited vcenter (vcenter.destroy obj at) ≡ (none, w')

  abbrev done : W → Option Error × W
  done w = (none, w)

  made_off-none :
      PowersOff
      → (obj state : String) (w w₁ : W) → machines.power_state obj w ≡ answer state
      → made_off vcenter machines obj state w ≡ (none, w₁)
      → machines.power_state obj w₁ ≡ answer "poweredOff"
  unfolding PowersOff made_off
  made_off-none powers obj state w w₁ at h = elim (Bool-cases (str_eq state "poweredOff")) [
    | inl off ↦
        let name : state ≡ "poweredOff" = (eq_iff state "poweredOff").0 off in
        let kept : done w ≡ done w₁ = ground (arith, off, h) in
        let same : w ≡ w₁ = ap (λ p. p.1) kept in
        subst (λ v. machines.power_state obj v ≡ answer "poweredOff") same (at ∙ ap answer name)
    | inr on ↦ powers obj w w₁ (ground (arith, on, h))
  ]

  removed-IsDestroyed :
      PowersOff
      → (obj : String) (state : Answer String) (w w' : W) → machines.power_state obj w ≡ state
      → removed vcenter machines obj state w ≡ (none, w')
      → IsDestroyed obj w'
  unfolding removed
  removed-IsDestroyed powers obj (refused e) w w' at h = cc h
  removed-IsDestroyed powers obj (answer state) w w' at h =
      let (v, offs, destroys) =
        went_well (made_off vcenter machines obj state w)
          (λ w₁. waited vcenter (vcenter.destroy obj w₁)) w' h in
      record { at = v; off = made_off-none powers obj state w v at offs; destroyed = destroys }

  -- Where a machine is deleted without an error, it was found, and it was powered off when it was
  -- destroyed, which is the last thing that is done.
  pub delete-IsDestroyed :
      PowersOff
      → (vm : VirtualMachine W) (w w' : W) → delete vcenter machines vm w ≡ (none, w')
      → (obj : String) × (find vcenter machines vm w ≡ found obj) × IsDestroyed obj w'
  unfolding delete
  delete-IsDestroyed powers vm w w' h =
      let (obj, at, removes) =
        on_found-none vcenter (find vcenter machines vm w)
          (λ obj w₁. removed vcenter machines obj (machines.power_state obj w₁) w₁) w w' h in
      (obj, at, removed-IsDestroyed powers obj (machines.power_state obj w) w w' refl removes)

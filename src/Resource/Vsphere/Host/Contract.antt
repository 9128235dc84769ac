-- ===== src/Resource/Vsphere/Host/Contract.antt =====
-- When the lockdown mode of a host cannot be compared.
use gru.Prelude.{String, false, none, some, ◌≡◌, ◌↔◌, refl, str_eq, Bool-cases, inl, inr, arith}
use gru.Errors.{panic}
use gru.Resource.Vsphere.{Vcenter}
use gru.Resource.Vsphere.Host.{
  Host, Properties, properties, no_host, no_properties, host_properties, lockdown_synced,
  is_lockdown_synced,
}

module _ {W : Type 0} (vcenter : Vcenter W) where
  -- The host is there, but its configuration was not read.
  pub IsUnread : Properties → Type 0
  IsUnread (no_host e) = ⊥
  IsUnread (no_properties e) = Unit
  IsUnread (properties none) = Unit
  IsUnread (properties (some info)) = ⊥

  lockdown_synced-panic :
      (mode : String) (p : Properties) → (lockdown_synced vcenter mode p ≡ panic) ↔ IsUnread p
  unfolding lockdown_synced IsUnread
  lockdown_synced-panic mode (no_host e) = (λ h. cc h, λ h. absurd h)
  lockdown_synced-panic mode (no_properties e) = (λ h. tt, λ h. refl)
  lockdown_synced-panic mode (properties none) = (λ h. tt, λ h. refl)
  lockdown_synced-panic mode (properties (some info)) = (λ h. cc h, λ h. absurd h)

  -- The comparison of the lockdown mode panics exactly where a mode is given and the configuration
  -- of the host was not read: because of an error other than that of a missing host, or because the
  -- server does not know it.
  pub is_lockdown_synced-panic :
      (h : Host W) (w : W)
      → (is_lockdown_synced vcenter h w ≡ panic)
        ↔ ((str_eq h.lockdown_mode "" ≡ false) × IsUnread (host_properties vcenter h w))
  unfolding is_lockdown_synced
  is_lockdown_synced-panic h w =
      let p = host_properties vcenter h w in
      elim (Bool-cases (str_eq h.lockdown_mode "")) [
        | inl e ↦ (λ bad. absurd (ground (arith, e, bad)), λ (given, unread). cc (e, given))
        | inr e ↦ (
          λ bad. (e, (lockdown_synced-panic h.lockdown_mode p).0 (ground (arith, e, bad))),
          λ (given, unread). ground (arith, e, (lockdown_synced-panic h.lockdown_mode p).1 unread),
        )
      ]

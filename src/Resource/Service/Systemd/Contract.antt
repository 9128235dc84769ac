-- ===== src/Resource/Service/Systemd/Contract.antt =====
-- Whether the units of systemd are in sync after they were enabled or disabled.
use gru.Prelude.{
  String, Bool, true, false, not, ◌||◌, Option, none, some, [], ◌∷◌, ◌≡◌, refl, str_eq, mem_str,
  if◌then◌else◌, arith,
}
use gru.Errors.{Error, ok}
use gru.Utils.File.{answer}
use gru.Resource.Service.Systemd.{
  Service, Systemd, text, file_state, enabled_of, is_enable_synced, set_enable, reloaded,
  enable_unit, disable_unit, on_conn,
}

-- The state of a unit file once it was enabled or disabled: a static unit, which has nothing to
-- install, stays as it is.
abbrev pub file_state_after : Bool → String → String
file_state_after on before =
    if str_eq before "static" then "static" else if on then "enabled" else "disabled"

module _ {W : Type 0} (systemd : Systemd W) where
  abbrev IsFileState : String → String → W → Type 0
  IsFileState unit value w = systemd.get_unit_property unit "UnitFileState" w ≡ answer (text value)

  -- What systemd makes of the files of a unit that is enabled, disabled or static.
  unfoldable pub ChangesFiles : Type 0
  ChangesFiles =
      (on : Bool) (unit before : String) (w w₁ w₂ : W)
      → mem_str before ("enabled" ∷ "disabled" ∷ "static" ∷ []) ≡ true
      → IsFileState unit before w
      → (if on
          then systemd.enable_unit_files (unit ∷ []) w
          else systemd.disable_unit_files (unit ∷ []) w)
        ≡ (none, w₁)
      → systemd.reload w₁ ≡ (none, w₂)
      → IsFileState unit (file_state_after on before) w₂

  reloaded-none :
      (p : Option Error × W) (w : W)
      → reloaded systemd p ≡ (none, w)
      → (v : W) × (p ≡ (none, v)) × (systemd.reload v ≡ (none, w))
  unfolding reloaded
  reloaded-none (none, v) w h = (v, refl, h)
  reloaded-none (some e, v) w h = cc h

  -- What is compared with `enable`, by whether the unit is static.
  file_state_synced :
      (on static : Bool)
      → file_state systemd on
          (answer (text (if static then "static" else if on then "enabled" else "disabled")))
        ≡ ok (answer (on || not static))
  unfolding file_state enabled_of
  file_state_synced true true = refl
  file_state_synced true false = refl
  file_state_synced false true = refl
  file_state_synced false false = refl

  -- Where a unit is enabled, disabled or static, and its property `enable` was set without an error,
  -- the property is found in sync, but for one case: a static unit that is to be disabled is never
  -- in sync, and is set again at every run.
  pub set_enable-synced :
      ChangesFiles
      → (s : Service W) (before : String) (w w₁ : W) → s.connected ≡ true
      → mem_str before ("enabled" ∷ "disabled" ∷ "static" ∷ []) ≡ true
      → IsFileState s.unit before w
      → set_enable systemd s w ≡ ok (none, w₁)
      → is_enable_synced systemd s w₁ ≡ ok (answer (s.enable || not (str_eq before "static")))
  unfolding ChangesFiles is_enable_synced set_enable on_conn enable_unit disable_unit
  set_enable-synced changes s before w w₁ connected known at h =
      let calls = if s.enable then enable_unit systemd s w else disable_unit systemd s w in
      let ran : reloaded systemd calls ≡ (none, w₁) = ground (arith, connected, h) in
      let (v, did, reloads) = reloaded-none calls w₁ ran in
      rw (connected, changes s.enable s.unit before w v w₁ known at did reloads)
        (file_state_synced s.enable (str_eq before "static"))

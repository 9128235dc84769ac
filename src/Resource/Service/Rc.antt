-- ===== src/Resource/Service/Rc.antt =====
-- resource/service_freebsd.go: services of the rc system, by the programs `service` and `sysrc`.
use Prim.Native.String.{◌++◌ as str_append}
use gru.Prelude.{
  String, Bool, true, false, Option, none, some, List, [], ◌∷◌, str_eq, if◌then◌else◌,
}
use gru.Errors.{Error}
use gru.Resource.{State, Property}
use gru.Resource.Base.{Base}
use gru.Utils.Git.{Exec, dropped}

pub record Service (W : Type 0) : Type 0 where
  pub base : Base W
  pub enable : Bool
  pub rc_var : String

unfoldable pub new_service : {W : Type 0} → String → Service W
new_service name = record {
  base = record {
    type = "service";
    name = name;
    state = "running";
    require = [];
    present_states_list = "present" ∷ "running" ∷ [];
    absent_states_list = "absent" ∷ "stopped" ∷ [];
    concurrent = false;
    property_list = [];
    subscribe = [];
  };
  enable = true;
  rc_var = str_append name "_enable";
}

module _ {W : Type 0} (exec : Exec W) where
  -- A run of `service`: the error alone.
  abbrev pub service : Service W → String → W → Option Error × W
  service s action w = dropped (exec "service" (s.base.name ∷ action ∷ []) w)

  abbrev pub went_well : Option Error → Bool
  went_well none = true
  went_well (some e) = false

  unfoldable pub evaluate : Service W → W → State × Option Error × W
  unfolding dropped
  evaluate s w =
      let (e, w₁) = service s "onestatus" w in
      (
        record { current = if went_well e then "running" else "stopped"; want = s.base.state },
        none,
        w₁,
      )

  unfoldable pub create : Service W → W → Option Error × W
  unfolding dropped
  create s = service s "onestart"

  unfoldable pub delete : Service W → W → Option Error × W
  unfolding dropped
  delete s = service s "onestop"

  abbrev same : Bool → Bool → Bool
  same true b = b
  same false true = false
  same false false = true

  unfoldable pub is_enable_synced : Service W → W → Bool × Option Error × W
  unfolding dropped
  is_enable_synced s w =
      let (e, w₁) = service s "enabled" w in (same (went_well e) s.enable, none, w₁)

  -- fmt.Sprintf("%s=%s", s.RCVar, rcValue)
  unfoldable pub assignment : String → String → String
  assignment name value = str_append name (str_append "=" value)

  unfoldable pub set_enable : Service W → W → Option Error × W
  unfolding dropped assignment
  set_enable s w =
      if str_eq s.rc_var ""
      then (none, w)
      else dropped (exec "sysrc" (assignment s.rc_var (if s.enable then "YES" else "NO") ∷ []) w)

  -- The one property.
  unfoldable pub service_properties : Service W → List (Property W)
  unfolding is_enable_synced set_enable
  service_properties s =
      record {
        name = "enable";
        set = λ w. some (set_enable s w);
        is_synced = λ w. some (is_enable_synced s w);
      }
      ∷ []

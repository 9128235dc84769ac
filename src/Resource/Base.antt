-- ===== src/Resource/Base.antt =====
-- `Base` of resource/resource.go, which the resources embed.
use Prim.Native.String.{◌++◌ as str_append}
use gru.Prelude.{
  String, ◌≡◌, ◌↔◌, Bool, true, false, not, ◌&&◌, ◌||◌, none, some, List, ◌++◌, arith, str_eq,
  if◌then◌else◌, mem_str,
}
use gru.Errors.{invalid_type, invalid_name, invalid_state}
use gru.Utils.Strings.{new_list, contains, contains-new_list, has_items}
use gru.Resource.{Action, Property, TriggerMap}

pub record Base (W : Type 0) : Type 0 where
  pub type : String
  pub name : String
  pub state : String
  pub require : List String
  pub present_states_list : List String
  pub absent_states_list : List String
  pub concurrent : Bool
  pub property_list : List (Property W)
  pub subscribe : TriggerMap W

-- fmt.Sprintf("%s[%s]", b.Type, b.Name)
unfoldable pub format_id : String → String → String
format_id type name = str_append type (str_append "[" (str_append name "]"))

module _ {W : Type 0} where
  unfoldable pub id : Base W → String
  unfolding format_id
  id b = format_id b.type b.name

  unfoldable pub initialize : Base W → Action W
  initialize b w = (none, w)

  unfoldable pub close : Base W → Action W
  close b w = (none, w)

  unfoldable pub validate : Base W → Action W
  validate b w =
      if str_eq b.type ""
      then (some invalid_type, w)
      else if str_eq b.name ""
      then (some invalid_name, w)
      else if not (contains (new_list (b.present_states_list ++ b.absent_states_list)) b.state)
      then (some (invalid_state b.state), w)
      else (none, w)

  unfoldable pub dependencies : Base W → List String
  dependencies b = b.require

  unfoldable pub present_states : Base W → List String
  present_states b = b.present_states_list

  unfoldable pub absent_states : Base W → List String
  absent_states b = b.absent_states_list

  unfoldable pub is_concurrent : Base W → Bool
  is_concurrent b = b.concurrent

  unfoldable pub subscribed_to : Base W → TriggerMap W
  subscribed_to b = b.subscribe

  unfoldable pub properties : Base W → List (Property W)
  properties b = b.property_list

  -- A base resource is valid exactly when its type and name are not empty and its state is one of
  -- its present or absent states, or is empty while there is any such state. Validation leaves the
  -- world alone.
  pub validate-none :
      (b : Base W) (w : W)
      → ((validate b w).1 ≡ w)
        × (((validate b w).0 ≡ none) ↔ (
            (str_eq b.type "" ≡ false)
            × (str_eq b.name "" ≡ false)
            × ((mem_str b.state (b.present_states_list ++ b.absent_states_list)
                  || has_items (b.present_states_list ++ b.absent_states_list) && str_eq "" b.state)
                ≡ true)))
  unfolding validate
  validate-none b w =
      let states = b.present_states_list ++ b.absent_states_list in
      (
        ground (arith),
        (
          λ e. ground (arith, e, contains-new_list states b.state),
          λ h. ground (arith, h.0, h.1, h.2, contains-new_list states b.state),
        ),
      )

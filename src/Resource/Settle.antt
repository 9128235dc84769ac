-- ===== src/Resource/Settle.antt =====
-- What a resource with the states present and absent owes to the runs of the catalog: once the
-- planned action went well, the next run finds nothing to do.
use gru.Prelude.{
  String, Bool, true, false, Option, none, [], ◌∷◌, ◌≡◌, refl, ◌∙◌, ap, subst, ◌⊎◌, inl, inr,
  if◌then◌else◌,
}
use gru.Errors.{Error, Result, ok}
use gru.Utils.Strings.{new_list, is_in_list, contains}
use gru.Resource.{Action, State, Resource}
use gru.Catalog.Execute.{Plan, do_create, do_delete, in_sync, plan}

pub record Managed (W : Type 0) : Type 0 where
  pub want : String
  pub evaluate : W → Result (State × Option Error)
  pub create : Action W
  pub delete : Action W

module _ {W : Type 0} where
  -- What `execute` does about a plan.
  abbrev pub applied : Managed W → Plan → Action W
  applied m do_create w = m.create w
  applied m do_delete w = m.delete w
  applied m in_sync w = (none, w)

  -- Evaluated without an error.
  abbrev pub IsEvaluated : Managed W → State → W → Type 0
  IsEvaluated m st w = m.evaluate w ≡ ok (st, none)

  abbrev state_at : String → Managed W → State
  state_at current m = record { current = current; want = m.want }

  -- Nothing is left to do.
  pub IsAtRest : Managed W → Resource W → W → Type 0
  IsAtRest m r w = (st : State) × IsEvaluated m st w × (plan r st ≡ in_sync)

  -- A change that went well is seen.
  pub record IsReliable (m : Managed W) : Type 0 where
    pub want :
        (st : State) (w : W) (e : Option Error) → m.evaluate w ≡ ok (st, e) → st.want ≡ m.want
    pub created :
        (w w₁ : W)
        → m.create w ≡ (none, w₁)
        → IsEvaluated m (record { current = "present"; want = m.want }) w₁
    pub deleted :
        (w w₁ : W)
        → m.delete w ≡ (none, w₁)
        → IsEvaluated m (record { current = "absent"; want = m.want }) w₁

  module _ (r : Resource W) (present : r.present_states ≡ "present" ∷ [])
      (absent : r.absent_states ≡ "absent" ∷ []) where
    plan_present :
        (st : State)
        → st.want ≡ "present"
        → plan r st
          ≡ (if contains (new_list ("absent" ∷ [])) st.current then do_create else in_sync)
    unfolding plan is_in_list new_list contains
    plan_present st wanted = rw (present, absent, wanted) refl

    plan_absent :
        (st : State)
        → st.want ≡ "absent"
        → plan r st
          ≡ (if contains (new_list ("present" ∷ [])) st.current then do_delete else in_sync)
    unfolding plan is_in_list new_list contains
    plan_absent st wanted = rw (present, absent, wanted) refl

    -- The one action that the planner may choose leads to a state that it leaves alone.
    at_rest :
        (m : Managed W) (act : Plan) (b : Bool) (st next : State) (w w₁ : W)
        → plan r st ≡ (if b then act else in_sync)
        → plan r next ≡ in_sync
        → (applied m act w ≡ (none, w₁) → IsEvaluated m next w₁)
        → IsEvaluated m st w
        → applied m (plan r st) w ≡ (none, w₁)
        → IsAtRest m r w₁
    unfolding IsAtRest
    at_rest m act true st next w w₁ acts rests seen e did =
        (next, seen (subst (λ q. applied m q w ≡ (none, w₁)) acts did), rests)
    at_rest m act false st next w w₁ rests after seen e did = (
      st,
      subst (IsEvaluated m st) (ap (λ x. x.1) (subst (λ q. applied m q w ≡ (none, w₁)) rests did))
          e,
      rests,
    )

    -- Where the action that is planned goes well, the next plan has nothing to do.
    pub settle :
        (m : Managed W)
        → IsReliable m
        → (m.want ≡ "present") ⊎ (m.want ≡ "absent")
        → (st : State) (w w₁ : W) → IsEvaluated m st w
        → applied m (plan r st) w ≡ (none, w₁)
        → IsAtRest m r w₁
    unfolding new_list contains
    settle m sound (inl wanted) st w w₁ e did =
        at_rest m do_create (contains (new_list ("absent" ∷ [])) st.current) st
          (state_at "present" m) w w₁ (plan_present st (sound.want st w none e ∙ wanted))
          (plan_present (state_at "present" m) wanted) (sound.created w w₁) e did
    settle m sound (inr wanted) st w w₁ e did =
        at_rest m do_delete (contains (new_list ("present" ∷ [])) st.current) st
          (state_at "absent" m) w w₁ (plan_absent st (sound.want st w none e ∙ wanted))
          (plan_absent (state_at "absent" m) wanted) (sound.deleted w w₁) e did

-- ===== src/Resource/Shell/Converge.antt =====
-- When a run of the catalog executes a shell command.
use gru.Prelude.{
  String, Bool, ◌||◌, List, [], ◌∷◌, ◌≡◌, refl, str_eq, if◌then◌else◌, Bool-cases, inl, inr,
}
use gru.Utils.Git.{Exec}
use gru.Resource.{Resource}
use gru.Resource.Shell.{Shell, evaluate}
use gru.Utils.Strings.{is_in_list, contains, new_list}
use gru.Catalog.Execute.{plan, do_create, in_sync}

module _ {W : Type 0} (exec : Exec W) (missing : String → W → Bool)
    (fields : String → List String) where
  -- A shell resource that is wanted present has its command executed at every run, unless
  -- `creates` names a file that is there: then it is in sync.
  pub evaluate-plan :
      (s : Shell W) (r : Resource W) (w : W)
      → r.present_states ≡ "present" ∷ []
      → r.absent_states ≡ "absent" ∷ []
      → s.base.state ≡ "present"
      → plan r (evaluate exec missing fields s w).0
        ≡ (if str_eq s.creates "" || missing s.creates w then do_create else in_sync)
  unfolding plan evaluate is_in_list new_list contains
  evaluate-plan s r w present absent wanted = elim (Bool-cases (str_eq s.creates "")) [
    | inl e ↦ rw (e, present, absent, wanted) refl
    | inr e ↦ elim (Bool-cases (missing s.creates w)) [
      | inl gone ↦ rw (e, gone, present, absent, wanted) refl
      | inr there ↦ rw (e, there, present, absent, wanted) refl
    ]
  ]

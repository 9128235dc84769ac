-- ===== src/Resource/Package/Converge.antt =====
-- A package that was installed is in sync.
use gru.Prelude.{String, Option, none, [], ◌∷◌, ◌++◌, ◌≡◌, refl}
use gru.Errors.{Error}
use gru.Utils.Git.{Exec}
use gru.Utils.Strings.{is_in_list, contains, new_list}
use gru.Resource.{Resource, State}
use gru.Resource.Package.{BasePackage, queried, evaluate, create, ran_with}
use gru.Catalog.Execute.{plan, in_sync}

module _ {W : Type 0} (exec : Exec W) (look_path : String → W → Option Error) where
  -- The package manager is found and its query goes well, after an install that went well.
  unfoldable pub Confirms : BasePackage W → Type 0
  Confirms b =
      (w : W)
      → let (out, e, w₁) = exec b.manager (b.install_args ++ (b.package_name ∷ [])) w in
        e ≡ none
        → (look_path b.manager w₁ ≡ none)
          × ((exec b.manager (b.query_args ++ (b.package_name ∷ [])) w₁).1 ≡ none)

  -- What is in sync after the package was created: the state found by the evaluation that follows.
  pub IsSettled : Resource W → State × Option Error × BasePackage W × W → Type 0
  IsSettled r (state, e, b, w) = (e ≡ none) × (plan r state ≡ in_sync)

  -- After a package was created without an error, its evaluation comes without an error, and a run
  -- of the catalog that wants it installed finds it in sync, if the package manager confirms what
  -- it installs.
  pub create-IsSettled :
      (b : BasePackage W) (r : Resource W) (w : W)
      → Confirms b
      → (create exec look_path b w).0 ≡ none
      → r.present_states ≡ "present" ∷ "installed" ∷ []
      → r.absent_states ≡ "absent" ∷ "deinstalled" ∷ []
      → b.base.state ≡ "installed"
      → let (e, b₁, w₁) = create exec look_path b w in IsSettled r (evaluate exec look_path b₁ w₁)
  unfolding Confirms IsSettled create ran_with evaluate queried plan is_in_list new_list contains
  create-IsSettled b r w confirms went_well present absent wanted =
      let (found, installed) = confirms w went_well in
      rw (evaluate, found, queried, installed, present, absent, wanted) (refl, refl)

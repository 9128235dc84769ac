-- ===== src/Resource/Package.antt =====
-- resource/package.go: packages, by the package manager of the system.  A method that appends to
-- the arguments of the struct returns the struct.
use gru.Prelude.{
  String, Bool, true, false, Option, none, some, List, [], ◌∷◌, ◌++◌, ◌≡◌, refl, arith,
  if◌then◌else◌, ◌⊎◌, inl, inr, ap, Option-cases, ◌∙◌, str_eq, eq_iff,
}
use gru.Errors.{Error, no_package_provider, Result, ok, err, panic}
use gru.Resource.{State, Resource}
use gru.Resource.Base.{Base}
use gru.Utils.Git.{Exec}
pub mod Converge

pub record BasePackage (W : Type 0) : Type 0 where
  pub base : Base W
  pub package_name : String
  pub version : String
  pub manager : String
  pub query_args : List String
  pub install_args : List String
  pub deinstall_args : List String
  pub update_args : List String

-- `exec` runs a program, `look_path` is the error of exec.LookPath.
module _ {W : Type 0} (exec : Exec W) (look_path : String → W → Option Error) where
  -- `Current` by the error of the query.
  unfoldable pub queried :
      BasePackage W → String × Option Error × W → State × Option Error × BasePackage W × W
  queried b (out, some _, w) = (record { current = "deinstalled"; want = b.base.state }, none, b, w)
  queried b (out, none, w) = (record { current = "installed"; want = b.base.state }, none, b, w)

  unfoldable pub evaluate : BasePackage W → W → State × Option Error × BasePackage W × W
  unfolding queried
  evaluate b w =
      let b₁ = record b { query_args = b.query_args ++ (b.package_name ∷ []) } in
      elim (look_path b.manager w) [
        | some e ↦ (record { current = "unknown"; want = b.base.state }, some e, b, w)
        | none ↦ queried b₁ (exec b.manager b₁.query_args w)
      ]

  -- The output goes to the log alone.
  unfoldable pub ran_with :
      BasePackage W → String × Option Error × W → Option Error × BasePackage W × W
  ran_with b (out, e, w) = (e, b, w)

  unfoldable pub create : BasePackage W → W → Option Error × BasePackage W × W
  unfolding ran_with
  create b w =
      let b₁ = record b { install_args = b.install_args ++ (b.package_name ∷ []) } in
      ran_with b₁ (exec b.manager b₁.install_args w)

  unfoldable pub delete : BasePackage W → W → Option Error × BasePackage W × W
  unfolding ran_with
  delete b w =
      let b₁ = record b { deinstall_args = b.deinstall_args ++ (b.package_name ∷ []) } in
      ran_with b₁ (exec b.manager b₁.deinstall_args w)

  unfoldable pub update : BasePackage W → W → Option Error × BasePackage W × W
  unfolding ran_with
  update b w =
      let b₁ = record b { update_args = b.update_args ++ (b.package_name ∷ []) } in
      ran_with b₁ (exec b.manager b₁.update_args w)

abbrev pub package_base : {W : Type 0} → String → Base W
package_base name = record {
  type = "package";
  name = name;
  state = "installed";
  require = [];
  present_states_list = "present" ∷ "installed" ∷ [];
  absent_states_list = "absent" ∷ "deinstalled" ∷ [];
  concurrent = false;
  property_list = [];
  subscribe = [];
}

unfoldable pub new_pacman : {W : Type 0} → String → BasePackage W
new_pacman name = record {
  base = package_base name;
  package_name = name;
  version = "";
  manager = "/usr/bin/pacman";
  query_args = "--query" ∷ [];
  install_args = "--sync" ∷ "--noconfirm" ∷ [];
  deinstall_args = "--remove" ∷ "--noconfirm" ∷ [];
  update_args = "--sync" ∷ "--noconfirm" ∷ [];
}

unfoldable pub new_yum : {W : Type 0} → String → BasePackage W
new_yum name = record {
  base = package_base name;
  package_name = name;
  version = "";
  manager = "/usr/bin/yum";
  query_args = "-q" ∷ "--noplugins" ∷ "list" ∷ "installed" ∷ [];
  install_args = "--assumeyes" ∷ "install" ∷ [];
  deinstall_args = "--assumeyes" ∷ "remove" ∷ [];
  update_args = "--assumeyes" ∷ "install" ∷ [];
}

unfoldable pub new_pkgng : {W : Type 0} → String → BasePackage W
new_pkgng name = record {
  base = package_base name;
  package_name = name;
  version = "";
  manager = "/usr/local/sbin/pkg";
  query_args = "info" ∷ "-e" ∷ [];
  install_args = "install" ∷ "-y" ∷ [];
  deinstall_args = "remove" ∷ "-y" ∷ [];
  update_args = "upgrade" ∷ "-y" ∷ [];
}

-- The release files with their providers.
unfoldable pub releases : {W : Type 0} → List (String × (String → BasePackage W))
unfolding new_pacman new_yum new_pkgng
releases =
    ("/etc/arch-release", new_pacman)
    ∷ ("/etc/centos-release", new_yum)
    ∷ ("/etc/redhat-release", new_yum)
    ∷ ("/usr/local/sbin/pkg", new_pkgng)
    ∷ []

-- The loop over the release files, in the order in which the map gives them.
unfoldable pub new_package :
    {W : Type 0}
    → (String → Bool)
    → List (String × (String → BasePackage W))
    → String
    → Result (BasePackage W)
new_package exists [] name = err no_package_provider
new_package exists ((release, provider) ∷ rs) name =
    let rest = new_package exists rs name in if exists release then ok (provider name) else rest

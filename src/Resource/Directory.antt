-- ===== src/Resource/Directory.antt =====
-- resource/file.go: the resource of directories.
use gru.Prelude.{String, Bool, true, false, Option, none, some, List, [], ◌∷◌, if◌then◌else◌}
use gru.Errors.{Error, Result, ok, panic, not_directory}
use gru.Utils.File.{Answer, answer, ◌>>=◌, Stat, missing, stat_failed, stated, Fs}
use gru.Resource.{State, Property}
use gru.Resource.File.{BaseFile, mode_property, ownership_property, defaults}
pub mod Contract

pub record Directory (W : Type 0) : Type 0 where
  pub file : BaseFile W
  pub parents : Bool

module _ {W : Type 0} (fs : Fs W) where
  -- A path that cannot be stated has a nil `fi`.
  unfoldable pub dir_state : String → Stat → Result (State × Option Error)
  dir_state want missing = ok (record { current = "absent"; want = want }, none)
  dir_state want (stat_failed e) = panic
  dir_state want (stated i) =
      ok (
        record { current = "present"; want = want },
        (if i.is_dir then none else some not_directory),
      )

  unfoldable pub evaluate : Directory W → W → Result (State × Option Error)
  unfolding dir_state
  evaluate d w = dir_state d.file.base.state (fs.stat d.file.path w)

  unfoldable pub create : Directory W → W → Option Error × W
  create d w =
      if d.parents
      then fs.make_dirs d.file.path d.file.mode w
      else fs.make_dir d.file.path d.file.mode w

  unfoldable pub delete : Directory W → W → Option Error × W
  delete d w = if d.parents then fs.remove_all d.file.path w else fs.remove_file d.file.path w

  unfoldable pub dir_properties : Directory W → List (Property W)
  dir_properties d = mode_property fs d.file ∷ ownership_property fs d.file ∷ []

-- The current user and group are those of the process.
unfoldable pub new_directory :
    {W : Type 0} → Answer String → Answer String → String → Answer (Directory W)
new_directory user group name = user >>= λ u. group >>= λ g. answer (record {
  file = record { base = defaults "directory" name; path = name; mode = 493; owner = u; group = g };
  parents = false;
})

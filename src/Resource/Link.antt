-- ===== src/Resource/Link.antt =====
-- resource/file.go: the resource of links.
use gru.Prelude.{String, Bool, true, false, not, Option, none, some, [], if◌then◌else◌, str_eq}
use gru.Errors.{Error, no_source, source_missing, not_link}
use gru.Utils.File.{Answer, answer, refused, Stat, missing, stat_failed, stated, Fs, exists}
use gru.Resource.{State}
use gru.Resource.File.{BaseFile, defaults}
pub mod Contract

pub record Link (W : Type 0) : Type 0 where
  pub file : BaseFile W
  pub source : String
  pub hard : Bool

module _ {W : Type 0} (fs : Fs W) where
  -- The base is not validated.
  unfoldable pub validate : Link W → W → Option Error × W
  unfolding exists
  validate l w =
      if str_eq l.source ""
      then (some no_source, w)
      else if not (exists fs l.source w)
      then (some (source_missing l.source), w)
      else (none, w)

  unfoldable pub read_back : Answer String → Option Error
  read_back (answer target) = none
  read_back (refused e) = some (not_link e)

  -- Every error but that of a missing path counts as present.
  unfoldable pub link_state : String → Stat → Answer String → State × Option Error
  unfolding read_back
  link_state want missing target = (record { current = "absent"; want = want }, none)
  link_state want (stat_failed e) target =
      (record { current = "present"; want = want }, read_back target)
  link_state want (stated i) target =
      (record { current = "present"; want = want }, read_back target)

  unfoldable pub evaluate : Link W → W → State × Option Error
  unfolding link_state
  evaluate l w = link_state l.file.base.state (fs.stat l.file.path w) (fs.read_link l.file.path w)

  unfoldable pub create : Link W → W → Option Error × W
  create l w =
      if l.hard then fs.link_file l.source l.file.path w else fs.symlink_file l.source l.file.path w

  unfoldable pub delete : Link W → W → Option Error × W
  delete l = fs.remove_file l.file.path

-- It always comes without an error; mode, owner and group are left empty.
unfoldable pub new_link : {W : Type 0} → String → Link W
new_link name = record {
  file = record { base = defaults "link" name; path = name; mode = 0; owner = ""; group = "" };
  source = "";
  hard = false;
}

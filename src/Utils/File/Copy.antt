-- ===== src/Utils/File/Copy.antt =====
-- utils/file.go: copies of files and directories, and the comparison of contents.
use gru.Prelude.{
  ℕ, zero, suc, String, Bool, true, false, Option, none, some, List, [], ◌∷◌, str_eq, if◌then◌else◌,
}
use gru.Errors.{Error, Result, ok, err, panic, not_regular_file, not_a_directory, already_exists}
use gru.Utils.File.{
  Answer, answer, refused, ◌>>=◌, ◌>>>◌, FileInfo, Stat, missing, stat_failed, stated, Opened,
  no_such, open_failed, opened, Entry, Fs, md5_of,
}
pub mod Contract
pub mod Termination

module _ {W : Type 0} (fs : Fs W) where
  -- os.Open as a step that can fail.
  unfoldable pub open_now : Opened → W → Option Error × W
  open_now no_such w = (some fs.not_exist, w)
  open_now (open_failed e) w = (some e, w)
  open_now opened w = (none, w)

  -- From the opening of the source on.
  unfoldable pub copy_open : String → String → ℕ → W → Option Error × W
  unfolding open_now
  copy_open path src mode w =
      open_now (fs.open_file src w) w
      >>> fs.create_file path
      >>> fs.copy_file path src
      >>> fs.chmod_file path mode

  -- What follows the Stat of the destination: on an error of it `dstInfo` is nil.
  unfoldable pub copy_onto : String → String → Bool → ℕ → Stat → W → Result (Option Error × W)
  unfolding copy_open
  copy_onto path src overwrite mode missing w = ok (copy_open path src mode w)
  copy_onto path src overwrite mode (stat_failed e) w =
      if overwrite then panic else ok (some (already_exists path), w)
  copy_onto path src overwrite mode (stated i) w =
      if overwrite then ok (copy_open path src i.mode w) else ok (some (already_exists path), w)

  -- What follows the Stat of the source.
  unfoldable pub copy_stated : String → String → Bool → Stat → W → Result (Option Error × W)
  unfolding copy_onto
  copy_stated path src overwrite missing w = ok (some fs.not_exist, w)
  copy_stated path src overwrite (stat_failed e) w = ok (some e, w)
  copy_stated path src overwrite (stated i) w =
      if i.is_regular
      then copy_onto path src overwrite i.mode (fs.stat path w) w
      else ok (some (not_regular_file src), w)

  unfoldable pub copy_from : String → String → Bool → W → Result (Option Error × W)
  unfolding copy_stated
  copy_from path src overwrite w = copy_stated path src overwrite (fs.stat src w) w

  unfoldable pub same_content_with : String → String → W → Answer Bool
  unfolding md5_of
  same_content_with path dst w =
      md5_of fs path w >>= λ a. md5_of fs dst w >>= λ b. answer (str_eq a b)

  unfoldable pub same_content : String → String → W → Answer Bool
  unfolding same_content_with
  same_content src dst = same_content_with src dst

  -- A copy that may run out of fuel: `none`.
  abbrev pub Copying : Type 0
  Copying = Option (Result (Option Error × W))

  -- What follows the copy of one entry.
  unfoldable pub and_rest : (W → Copying) → Copying → Copying
  and_rest rest (some (ok (none, w))) = rest w
  and_rest rest (some (ok (some e, w))) = some (ok (some e, w))
  and_rest rest (some (err e)) = some (err e)
  and_rest rest (some panic) = some panic
  and_rest rest none = none

  -- One entry: `copy_sub` is the recursive call.
  unfoldable pub copy_entry :
      (String → String → W → Copying) → String → String → Entry → W → Copying
  unfolding copy_from
  copy_entry copy_sub src dst e w =
      if e.is_dir
      then copy_sub (fs.join src e.name) (fs.join dst e.name) w
      else some (copy_from (fs.join dst e.name) (fs.join src e.name) false w)

  unfoldable pub copy_entries :
      (String → String → W → Copying) → String → String → List Entry → W → Copying
  unfolding and_rest copy_entry
  copy_entries copy_sub src dst [] w = some (ok (none, w))
  copy_entries copy_sub src dst (e ∷ es) w =
      and_rest (copy_entries copy_sub src dst es) (copy_entry copy_sub src dst e w)

  -- What follows Readdir.
  unfoldable pub copy_read :
      (String → String → W → Copying) → String → String → Answer (List Entry) → W → Copying
  unfolding copy_entries
  copy_read copy_sub src dst (refused e) w = some (ok (some e, w))
  copy_read copy_sub src dst (answer es) w = copy_entries copy_sub src dst es w

  -- What follows MkdirAll and the opening of the source.
  unfoldable pub copy_opened :
      (String → String → W → Copying) → String → String → Option Error × W → Copying
  unfolding copy_read
  copy_opened copy_sub src dst (some e, w) = some (ok (some e, w))
  copy_opened copy_sub src dst (none, w) = copy_read copy_sub src dst (fs.read_dir src w) w

  -- What follows the opening of the destination, which must be missing.
  unfoldable pub copy_missing :
      (String → String → W → Copying) → String → String → ℕ → Opened → W → Copying
  unfolding copy_opened open_now
  copy_missing copy_sub src dst mode no_such w =
      copy_opened copy_sub src dst
        (fs.make_dirs dst mode w >>> λ w₁. open_now (fs.open_file src w₁) w₁)
  copy_missing copy_sub src dst mode (open_failed e) w = some (ok (some (already_exists dst), w))
  copy_missing copy_sub src dst mode opened w = some (ok (some (already_exists dst), w))

  -- What follows the Stat of the source.
  unfoldable pub copy_tree : (String → String → W → Copying) → String → String → Stat → W → Copying
  unfolding copy_missing
  copy_tree copy_sub src dst missing w = some (ok (some fs.not_exist, w))
  copy_tree copy_sub src dst (stat_failed e) w = some (ok (some e, w))
  copy_tree copy_sub src dst (stated i) w =
      if i.is_dir
      then copy_missing copy_sub src dst i.mode (fs.open_file dst w) w
      else some (ok (some (not_a_directory src), w))

  unfoldable pub copy_dir : ℕ → String → String → W → Copying
  unfolding copy_tree
  copy_dir zero src dst w = none
  copy_dir (suc fuel) src dst w = copy_tree (copy_dir fuel) src dst (fs.stat src w) w

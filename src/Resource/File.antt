-- ===== src/Resource/File.antt =====
-- resource/file.go: the resource of regular files.
use gru.Prelude.{
  ℕ, String, Bool, true, false, ◌&&◌, Option, none, some, List, [], ◌∷◌, str_eq, ◌==◌,
  if◌then◌else◌,
}
use Prim.Native.Nat.{◌%◌}
use gru.Errors.{Error, Result, ok, err, panic, resource_absent, source_and_content, not_regular}
use gru.Resource.{State, Property}
pub mod Contract
use gru.Resource.Base.{Base}
use gru.Resource.Base as Bases
use gru.Utils.File.{
  FileInfo, Answer, answer, refused, ◌>>=◌, Stat, missing, stat_failed, stated, Fs, exists, md5_of,
  mode_of, owner_of, set_owner, FileOwner,
}

pub record BaseFile (W : Type 0) : Type 0 where
  pub base : Base W
  pub path : String
  pub mode : ℕ
  pub owner : String
  pub group : String

-- `content` is nil or the bytes.
pub record File (W : Type 0) : Type 0 where
  pub file : BaseFile W
  pub content : Option String
  pub source : String

-- mode.Perm() keeps the lowest nine bits.
unfoldable pub perm : ℕ → ℕ
perm mode = mode % 512

module _ {W : Type 0} (fs : Fs W) where
  unfoldable pub is_mode_synced : BaseFile W → W → Answer Bool
  unfolding exists mode_of perm
  is_mode_synced bf w =
      if exists fs bf.path w
      then (mode_of fs bf.path w >>= λ mode. answer (perm mode == bf.mode))
      else refused resource_absent

  unfoldable pub set_mode : BaseFile W → W → Option Error × W
  set_mode bf = fs.chmod_file bf.path bf.mode

  unfoldable pub is_owner_synced : BaseFile W → W → Answer Bool
  unfolding exists owner_of
  is_owner_synced bf w =
      if exists fs bf.path w
      then (owner_of fs bf.path w >>= λ o.
          answer (str_eq o.user bf.owner && str_eq o.group bf.group))
      else refused resource_absent

  unfoldable pub set_ownership : BaseFile W → W → Option Error × W
  unfolding set_owner
  set_ownership bf = set_owner fs bf.path bf.owner bf.group

  unfoldable pub is_content_synced : File W → W → Answer Bool
  unfolding exists md5_of
  is_content_synced f w = elim f.content [
    | none ↦ answer true
    | some content ↦
        if exists fs f.file.path w
        then (md5_of fs f.file.path w >>= λ dst. answer (str_eq (fs.md5 content) dst))
        else refused resource_absent
  ]

  -- Writing the bytes of nil writes no byte.
  unfoldable pub bytes : Option String → String
  bytes none = ""
  bytes (some content) = content

  unfoldable pub write_over : File W → Answer String → W → Option Error × W
  unfolding bytes
  write_over f (answer dst) w = fs.write_file f.file.path (bytes f.content) f.file.mode w
  write_over f (refused e) w = (some e, w)

  unfoldable pub set_content : File W → W → Option Error × W
  unfolding write_over md5_of
  set_content f w = write_over f (md5_of fs f.file.path w) w

  -- The base is valid, and not both of source and content are given.
  unfoldable pub both_given : Option Error → String → Option String → Option Error
  both_given (some e) source content = some e
  both_given none source none = none
  both_given none source (some c) = if str_eq source "" then none else some source_and_content

  unfoldable pub validate : File W → W → Option Error × W
  unfolding both_given Bases.validate
  validate f w = let (e, w₁) = Bases.validate f.file.base w in (both_given e f.source f.content, w₁)

  -- `join` is filepath.Join with the site repository; the file has its content from then on.
  unfoldable pub with_source : File W → Answer String → Option Error × File W
  with_source f (answer content) = (none, record f { content = some content })
  with_source f (refused e) = (some e, f)

  unfoldable pub initialize : (String → String) → File W → W → Option Error × File W
  unfolding with_source
  initialize join f w =
      if str_eq f.source "" then (none, f) else with_source f (fs.read_file (join f.source) w)

  -- A file that cannot be stated has a nil `fi`.
  unfoldable pub state_of : String → Stat → Result (State × Option Error)
  state_of want missing = ok (record { current = "absent"; want = want }, none)
  state_of want (stat_failed e) = panic
  state_of want (stated i) = ok (
    record { current = "present"; want = want },
    (if i.is_regular then none else some not_regular),
  )

  unfoldable pub evaluate : File W → W → Result (State × Option Error)
  unfolding state_of
  evaluate f w = state_of f.file.base.state (fs.stat f.file.path w)

  unfoldable pub create : File W → W → Option Error × W
  unfolding bytes
  create f = fs.write_file f.file.path (bytes f.content) f.file.mode

  unfoldable pub delete : File W → W → Option Error × W
  delete f = fs.remove_file f.file.path

  -- What `IsSynced` returns.
  unfoldable pub synced : W → Answer Bool → Bool × Option Error × W
  synced w (answer b) = (b, none, w)
  synced w (refused e) = (false, some e, w)

  -- The properties act on the file as it is when they are called.
  abbrev pub mode_property : BaseFile W → Property W
  mode_property bf = record {
    name = "mode";
    set = λ w. some (set_mode bf w);
    is_synced = λ w. some (synced w (is_mode_synced bf w));
  }

  abbrev pub ownership_property : BaseFile W → Property W
  ownership_property bf = record {
    name = "ownership";
    set = λ w. some (set_ownership bf w);
    is_synced = λ w. some (synced w (is_owner_synced bf w));
  }

  abbrev pub content_property : File W → Property W
  content_property f = record {
    name = "content";
    set = λ w. some (set_content f w);
    is_synced = λ w. some (synced w (is_content_synced f w));
  }

  unfoldable pub file_properties : File W → List (Property W)
  file_properties f = mode_property f.file ∷ ownership_property f.file ∷ content_property f ∷ []

-- What the constructors of files, directories and links share.
abbrev pub defaults : {W : Type 0} → String → String → Base W
defaults type name = record {
  type = type;
  name = name;
  state = "present";
  require = [];
  present_states_list = "present" ∷ [];
  absent_states_list = "absent" ∷ [];
  concurrent = true;
  property_list = [];
  subscribe = [];
}

-- The current user and group are those of the process.
unfoldable pub new_file : {W : Type 0} → Answer String → Answer String → String → Answer (File W)
new_file user group name = user >>= λ u. group >>= λ g. answer (record {
  file = record { base = defaults "file" name; path = name; mode = 420; owner = u; group = g };
  content = none;
  source = "";
})

-- ===== src/Utils/File.antt =====
-- utils/file.go: what the resources use of it.  The calls of the operating system are the
-- parameter `Fs`; those that only look leave the world alone.
pub mod Copy
use gru.Prelude.{ℕ, String, Bool, true, false, Option, none, some, List, ◌≡◌, refl}
use gru.Errors.{Error}

-- A value or an error.
pub data Answer (A : Type 0) : Type 0 where
  answer : A → Answer A
  refused : Error → Answer A

infixl 5 ◌>>=◌
abbrev pub ◌>>=◌ : {A B : Type 0} → Answer A → (A → Answer B) → Answer B
answer a >>= f = f a
refused e >>= f = refused e

-- One call after another, up to the first error.
infixl 5 ◌>>>◌
abbrev pub ◌>>>◌ : {W : Type 0} → Option Error × W → (W → Option Error × W) → Option Error × W
(some e, w) >>> f = (some e, w)
(none, w) >>> f = f w

-- A chain of two calls that went well.
pub went_well :
    {W : Type 0} (p : Option Error × W) (f : W → Option Error × W) (w' : W)
    → (p >>> f) ≡ (none, w')
    → (v : W) × (p ≡ (none, v)) × (f v ≡ (none, w'))
went_well (none, v) f w' h = (v, refl, h)
went_well (some e, v) f w' h = cc h

pub record FileInfo : Type 0 where
  pub mode : ℕ
  pub is_regular : Bool
  pub is_dir : Bool
  pub uid : ℕ
  pub gid : ℕ

-- os.Stat: os.IsNotExist tells a missing file from other errors.
pub data Stat : Type 0 where
  missing : Stat
  stat_failed : Error → Stat
  stated : FileInfo → Stat

-- os.Open, in the same way.
pub data Opened : Type 0 where
  no_such : Opened
  open_failed : Error → Opened
  opened : Opened

-- What Readdir tells of a file in a directory.
pub record Entry : Type 0 where
  pub name : String
  pub is_dir : Bool

pub record Fs (W : Type 0) : Type 0 where
  pub stat : String → W → Stat
  pub not_exist : Error
  pub read_file : String → W → Answer String
  pub write_file : String → String → ℕ → W → Option Error × W
  pub remove_file : String → W → Option Error × W
  pub chmod_file : String → ℕ → W → Option Error × W
  pub chown_file : String → ℕ → ℕ → W → Option Error × W
  pub read_link : String → W → Answer String
  pub link_file : String → String → W → Option Error × W
  pub symlink_file : String → String → W → Option Error × W
  pub make_dir : String → ℕ → W → Option Error × W
  pub make_dirs : String → ℕ → W → Option Error × W
  pub remove_all : String → W → Option Error × W
  -- An open file is named by the path that it was opened with: os.Create, then io.Copy to it.
  pub open_file : String → W → Opened
  pub create_file : String → W → Option Error × W
  pub copy_file : String → String → W → Option Error × W
  pub read_dir : String → W → Answer (List Entry)
  -- filepath.Join
  pub join : String → String → String
  -- os/user, whose ids are texts in a lookup by name, and strconv.Atoi.
  pub user_name : ℕ → Answer String
  pub group_name : ℕ → Answer String
  pub user_id : String → Answer String
  pub group_id : String → Answer String
  pub atoi : String → Answer ℕ
  -- The hexadecimal digests.
  pub md5 : String → String
  pub sha1 : String → String
  pub sha256 : String → String
  -- filepath.Abs, which asks for the working directory.
  pub abs : String → W → Answer String

pub record FileOwner : Type 0 where
  pub user : String
  pub group : String

module _ {W : Type 0} (fs : Fs W) where
  unfoldable pub found : Stat → Bool
  found missing = false
  found (stat_failed e) = true
  found (stated i) = true

  unfoldable pub exists : String → W → Bool
  unfolding found
  exists path w = found (fs.stat path w)

  unfoldable pub info : Stat → Answer FileInfo
  info missing = refused fs.not_exist
  info (stat_failed e) = refused e
  info (stated i) = answer i

  unfoldable pub md5_of : String → W → Answer String
  md5_of path w = fs.read_file path w >>= λ buf. answer (fs.md5 buf)

  unfoldable pub sha1_of : String → W → Answer String
  sha1_of path w = fs.read_file path w >>= λ buf. answer (fs.sha1 buf)

  unfoldable pub sha256_of : String → W → Answer String
  sha256_of path w = fs.read_file path w >>= λ buf. answer (fs.sha256 buf)

  unfoldable pub abs_of : String → W → Answer String
  abs_of path = fs.abs path

  unfoldable pub remove : String → W → Option Error × W
  remove path = fs.remove_file path

  unfoldable pub chmod : String → ℕ → W → Option Error × W
  chmod path mode = fs.chmod_file path mode

  unfoldable pub mode_of : String → W → Answer ℕ
  unfolding info
  mode_of path w = info (fs.stat path w) >>= λ i. answer i.mode

  unfoldable pub owner_of : String → W → Answer FileOwner
  unfolding info
  owner_of path w = info (fs.stat path w) >>= λ i. fs.user_name i.uid >>= λ u.
      fs.group_name i.gid >>= λ g. answer (record { user = u; group = g })

  -- The ids, and then the change of ownership.
  unfoldable pub chown_to : String → Answer (ℕ × ℕ) → W → Option Error × W
  chown_to path (answer (uid, gid)) w = fs.chown_file path uid gid w
  chown_to path (refused e) w = (some e, w)

  unfoldable pub set_owner : String → String → String → W → Option Error × W
  unfolding chown_to
  set_owner path owner group w =
      chown_to path
        (fs.user_id owner >>= λ u.
          fs.group_id group >>= λ g. fs.atoi u >>= λ uid. fs.atoi g >>= λ gid. answer (uid, gid))
        w

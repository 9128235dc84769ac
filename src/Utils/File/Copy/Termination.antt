-- ===== src/Utils/File/Copy/Termination.antt =====
-- `CopyDir` comes to an end where the directories below the source are bounded.
use gru.Prelude.{ℕ, ◌<◌, String, true, Option, some, List, ◌≡◌, All}
use gru.Errors.{Error, ok}
use gru.Utils.File.{answer, Entry, Fs}
use gru.Utils.File.Copy.{Copying}

module _ {W : Type 0} (fs : Fs W) (depth : String → ℕ) where
  -- A directory that can be read lies less deep than the directories in it.  Paths show it: one
  -- that the system takes has at most PATH_MAX bytes, and the path of an entry is longer.
  unfoldable pub Deepens : Type 0
  Deepens =
      (src : String) (w : W) (es : List Entry)
      → fs.read_dir src w ≡ answer es
      → All (λ (e : Entry). e.is_dir ≡ true → depth (fs.join src e.name) < depth src) es

  -- The end is reached, without a panic.
  abbrev pub Finishes : Copying fs → Type 0
  Finishes r = (p : Option Error × W) × (r ≡ some (ok p))

  -- The recursive calls on what lies deeper come to an end.
  abbrev Recurses : (String → String → W → Copying fs) → ℕ → Type 0
  Recurses copy_sub n = (src dst : String) (w : W) → depth src < n → Finishes (copy_sub src dst w)

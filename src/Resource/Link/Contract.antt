-- ===== src/Resource/Link/Contract.antt =====
-- Links in the runs of a catalog.
use gru.Prelude.{String, none, some, ◌≡◌, refl, Bool-cases, inl, inr, if◌then◌else◌, arith}
use gru.Errors.{Error, not_link}
use gru.Utils.File.{FileInfo, answer, refused, Stat, missing, stat_failed, stated, Fs, found}
use gru.Resource.Link.{Link, read_back, link_state, evaluate, create}

module _ {W : Type 0} (fs : Fs W) where
  -- What a call that makes a link leaves behind when it goes well: a symbolic link reads as its
  -- target; a hard link to a file that is no symbolic link is another name of that file.
  pub record LinkCalls : Type 0 where
    pub symlinked :
        (source path : String) (w w₁ : W)
        → fs.symlink_file source path w ≡ (none, w₁)
        → fs.read_link path w₁ ≡ answer source
    pub linked :
        (source path : String) (w w₁ : W) (e : Error)
        → fs.read_link source w ≡ refused e
        → fs.link_file source path w ≡ (none, w₁)
        → ((i : FileInfo) × (fs.stat path w₁ ≡ stated i))
          × ((e₁ : Error) × (fs.read_link path w₁ ≡ refused e₁))

  -- A symbolic link is found in order; it counts as absent while its target is missing.  A hard
  -- link is reported as no link.
  pub IsFound : Link W → W → Type 0
  IsFound l w =
      if l.hard
      then ((e : Error) × (evaluate fs l w
            ≡ (record { current = "present"; want = l.file.base.state }, some (not_link e))))
      else evaluate fs l w ≡ (
        record {
          current = if found fs (fs.stat l.file.path w) then "present" else "absent";
          want = l.file.base.state;
        },
        none,
      )

  link_state_linked :
      (want : String) (s : Stat) (target : String)
      → link_state fs want s (answer target)
        ≡ (record { current = if found fs s then "present" else "absent"; want = want }, none)
  unfolding link_state found read_back
  link_state_linked want missing target = refl
  link_state_linked want (stat_failed e) target = refl
  link_state_linked want (stated i) target = refl

  -- After a link to a file that is no symbolic link was created without an error, a symbolic link
  -- is evaluated without an error, as present unless its target is missing from where the link
  -- stands; but a hard link is evaluated with the error that it is no link, so that each run of the
  -- catalog fails on it.
  pub create-IsFound :
      LinkCalls
      → (l : Link W) (w w₁ : W) (e : Error) → fs.read_link l.source w ≡ refused e
      → create fs l w ≡ (none, w₁)
      → IsFound l w₁
  unfolding create evaluate IsFound link_state read_back
  create-IsFound calls l w w₁ e plain did = elim (Bool-cases l.hard) [
    | inl hard ↦
        let ((i, at), (e₁, reads)) =
          calls.linked l.source l.file.path w w₁ e plain (ground (arith, hard, did)) in
        rw (hard, at, reads) (e₁, refl)
    | inr soft ↦
        let reads = calls.symlinked l.source l.file.path w w₁ (ground (arith, soft, did)) in
        rw (soft, reads) (link_state_linked l.file.base.state (fs.stat l.file.path w₁) l.source)
  ]

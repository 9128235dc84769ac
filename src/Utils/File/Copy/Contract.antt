-- ===== src/Utils/File/Copy/Contract.antt =====
-- What `CopyFrom` leaves behind.
use gru.Prelude.{
  ℕ, String, Bool, true, false, none, ◌≡◌, refl, ap, ◌∙◌, sym, subst, Bool-cases, inl, inr, arith,
}
use gru.Errors.{ok}
use gru.Utils.File.{
  went_well, FileInfo, answer, Stat, missing, stat_failed, stated, Opened, no_such, open_failed,
  opened, Fs,
}
use gru.Utils.File.Copy.{copy_from, copy_stated, copy_onto, copy_open, open_now}

module _ {W : Type 0} (fs : Fs W) where
  -- What the calls leave behind when they go well: os.Create an empty file, io.Copy what it reads of the source at that
  -- moment, and a change of mode the content.
  pub record CopyCalls : Type 0 where
    pub truncated :
        (path : String) (w w₁ : W)
        → fs.create_file path w ≡ (none, w₁)
        → fs.read_file path w₁ ≡ answer ""
    pub copied :
        (path src : String) (w w₁ : W)
        → fs.copy_file path src w ≡ (none, w₁)
        → fs.read_file path w₁ ≡ fs.read_file src w
    pub changed :
        (path : String) (mode : ℕ) (w w₁ : W)
        → fs.chmod_file path mode w ≡ (none, w₁)
        → (fs.read_file path w₁ ≡ fs.read_file path w)
          × ((i : FileInfo) × (fs.stat path w₁ ≡ stated i) × (i.mode ≡ mode))

  -- The destination has the mode, and the content that the source has once the destination was
  -- created, which empties it where it was there.
  pub record IsCopy (path src : String) (mode : ℕ) (w w' : W) : Type 0 where
    pub emptied : W
    pub created : fs.create_file path w ≡ (none, emptied)
    pub content : fs.read_file path w' ≡ fs.read_file src emptied
    pub info : FileInfo
    pub at : fs.stat path w' ≡ stated info
    pub mode_kept : info.mode ≡ mode

  opened_well : (o : Opened) (w v : W) → open_now fs o w ≡ (none, v) → w ≡ v
  unfolding open_now
  opened_well no_such w v h = cc h
  opened_well (open_failed e) w v h = cc h
  opened_well opened w v h = ap (λ p. p.1) h

  copy_open-IsCopy :
      CopyCalls
      → (path src : String) (mode : ℕ) (w w' : W) → copy_open fs path src mode w ≡ (none, w')
      → IsCopy path src mode w w'
  unfolding copy_open
  copy_open-IsCopy calls path src mode w w' h =
      let (w₃, h₃, chmods) = went_well _ (fs.chmod_file path mode) w' h in
      let (w₂, h₂, copies) = went_well _ (fs.copy_file path src) w₃ h₃ in
      let (w₁, h₁, creates) = went_well _ (fs.create_file path) w₂ h₂ in
      let (same, (i, at, kept)) = calls.changed path mode w₃ w' chmods in
      record {
        emptied = w₂;
        created =
            subst (λ x. fs.create_file path x ≡ (none, w₂))
              (sym (opened_well (fs.open_file src w) w w₁ h₁)) creates;
        content = same ∙ calls.copied path src w₂ w₃ copies;
        info = i;
        at = at;
        mode_kept = kept;
      }

  -- By what the destination was before the copy.
  IsCopied : String → String → Bool → ℕ → W → W → Stat → Type 0
  IsCopied path src overwrite mode w w' missing = IsCopy path src mode w w'
  IsCopied path src overwrite mode w w' (stat_failed e) = ⊥
  IsCopied path src overwrite mode w w' (stated i) =
      (overwrite ≡ true) × IsCopy path src i.mode w w'

  copy_onto-IsCopied :
      CopyCalls
      → (path src : String) (overwrite : Bool) (mode : ℕ) (s : Stat) (w w' : W)
      → copy_onto fs path src overwrite mode s w ≡ ok (none, w')
      → IsCopied path src overwrite mode w w' s
  unfolding copy_onto IsCopied
  copy_onto-IsCopied calls path src overwrite mode missing w w' h =
      copy_open-IsCopy calls path src mode w w' (cc h)
  copy_onto-IsCopied calls path src true mode (stat_failed e) w w' h = cc h
  copy_onto-IsCopied calls path src false mode (stat_failed e) w w' h = cc h
  copy_onto-IsCopied calls path src true mode (stated i) w w' h =
      (refl, copy_open-IsCopy calls path src i.mode w w' (cc h))
  copy_onto-IsCopied calls path src false mode (stated i) w w' h = cc h

  -- The source is a regular file, and the destination is a copy of it.
  pub IsCopiedFrom : String → String → Bool → W → W → Type 0
  IsCopiedFrom path src overwrite w w' =
      (i : FileInfo) × (fs.stat src w ≡ stated i)
      × (i.is_regular ≡ true)
      × IsCopied path src overwrite i.mode w w' (fs.stat path w)

  copy_stated-IsCopied :
      CopyCalls
      → (path src : String) (overwrite : Bool) (s : Stat) (w w' : W) → fs.stat src w ≡ s
      → copy_stated fs path src overwrite s w ≡ ok (none, w')
      → IsCopiedFrom path src overwrite w w'
  unfolding copy_stated IsCopiedFrom
  copy_stated-IsCopied calls path src overwrite missing w w' at h = cc h
  copy_stated-IsCopied calls path src overwrite (stat_failed e) w w' at h = cc h
  copy_stated-IsCopied calls path src overwrite (stated i) w w' at h =
      elim (Bool-cases i.is_regular) [
        | inl regular ↦ (
          i,
          at,
          regular,
          copy_onto-IsCopied calls path src overwrite i.mode (fs.stat path w) w w'
              (ground (arith, regular, h)),
        )
        | inr irregular ↦ absurd (ground (arith, irregular, h))
      ]

  -- Where `CopyFrom` returns no error, the source was a regular file and the destination was
  -- missing, or overwriting was asked for. Then the destination has the mode that it had, or that
  -- of the source where it was missing, and the content that the source has at the time when the
  -- destination has been created or emptied.
  pub copy_from-IsCopiedFrom :
      CopyCalls
      → (path src : String) (overwrite : Bool) (w w' : W)
      → copy_from fs path src overwrite w ≡ ok (none, w')
      → IsCopiedFrom path src overwrite w w'
  unfolding copy_from
  copy_from-IsCopiedFrom calls path src overwrite w w' h =
      copy_stated-IsCopied calls path src overwrite (fs.stat src w) w w' refl h

  emptied_by_self :
      CopyCalls
      → (path : String) (overwrite : Bool) (mode : ℕ) (s : Stat) (w w' : W)
      → IsCopied path path overwrite mode w w' s
      → fs.read_file path w' ≡ answer ""
  unfolding IsCopied
  emptied_by_self calls path overwrite mode missing w w' c =
      c.content ∙ calls.truncated path w c.emptied c.created
  emptied_by_self calls path overwrite mode (stat_failed e) w w' bad = absurd bad
  emptied_by_self calls path overwrite mode (stated i) w w' (asked, c) =
      c.content ∙ calls.truncated path w c.emptied c.created

  -- A file that is copied onto itself without an error is empty from then on.
  pub copy_from_self :
      CopyCalls
      → (path : String) (overwrite : Bool) (w w' : W)
      → copy_from fs path path overwrite w ≡ ok (none, w')
      → fs.read_file path w' ≡ answer ""
  unfolding IsCopiedFrom
  copy_from_self calls path overwrite w w' h =
      let (i, at, regular, c) = copy_from-IsCopiedFrom calls path path overwrite w w' h in
      emptied_by_self calls path overwrite i.mode (fs.stat path w) w w' c

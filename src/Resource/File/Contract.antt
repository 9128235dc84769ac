-- ===== src/Resource/File/Contract.antt =====
-- The file resource in a run of the catalog.
use gru.Prelude.{
  ℕ, ◌≤◌, String, Bool, true, false, Option, none, some, List, [], ◌∷◌, ◌≡◌, ◌≢◌, refl, ◌∙◌, arith,
  eq_refl, ◌==◌, ==_iff, Option-cases, inl, inr, ◌⊎◌, if◌then◌else◌,
}
use Prim.Native.Nat.{◌%◌}
use gru.Errors.{Error, ok, resource_absent}
use gru.Resource.{Property}
use gru.Utils.File.{
  FileInfo, Stat, missing, stat_failed, stated, answer, refused, ◌>>=◌, Fs, exists, found, md5_of,
  mode_of, info,
}
use gru.Resource.File.{
  File, BaseFile, is_mode_synced, is_owner_synced, is_content_synced, synced, file_properties,
  mode_property, ownership_property, content_property, evaluate, state_of, create, perm, bytes,
}
use gru.Catalog.Execute.{Shared, sync_properties}

module _ {W : Type 0} (fs : Fs W) where
  -- A property that is in sync, or that makes no sense for an absent resource.
  IsPassed : Option (Bool × Option Error × W) → W → Type 0
  IsPassed p w = (p ≡ some (true, none, w)) ⊎ (p ≡ some (false, some resource_absent, w))

  sync_properties-IsPassed :
      (p : Property W) (ps : List (Property W)) (id : String) (changed : Bool) (s : Shared W)
      → IsPassed (p.is_synced s.world) s.world
      → sync_properties id (p ∷ ps) changed s ≡ sync_properties id ps changed s
  unfolding IsPassed sync_properties
  sync_properties-IsPassed p ps id changed s (inl e) = rw (e, sync_properties) refl
  sync_properties-IsPassed p ps id changed s (inr e) = rw (e, sync_properties) refl

  content-IsPassed :
      (f : File W) (w : W)
      → fs.stat f.file.path w ≡ missing
      → IsPassed (some (synced fs w (is_content_synced fs f w))) w
  unfolding IsPassed is_content_synced exists synced
  content-IsPassed f w gone = elim (Option-cases f.content) [
    | inl e ↦ inl (rw (e, is_content_synced, synced) refl)
    | inr (c, e) ↦ inr (rw (e, is_content_synced, gone, found, synced) refl)
  ]

  -- While the file is absent, the loop over its properties sets none of them and returns no error.
  pub sync_properties_absent :
      (f : File W) (id : String) (changed : Bool) (s : Shared W)
      → fs.stat f.file.path s.world ≡ missing
      → sync_properties id (file_properties fs f) changed s ≡ (changed, ok tt, s)
  unfolding file_properties synced is_mode_synced is_owner_synced exists IsPassed sync_properties
  sync_properties_absent f id changed s gone =
      let mode = mode_property fs f.file in
      let ownership = ownership_property fs f.file in
      let content = content_property fs f in
      sync_properties-IsPassed mode (ownership ∷ content ∷ []) id changed s
        (inr (rw (gone, found, is_mode_synced, synced) refl))
      ∙ sync_properties-IsPassed ownership (content ∷ []) id changed s
          (inr (rw (gone, found, is_owner_synced, synced) refl))
      ∙ sync_properties-IsPassed content [] id changed s (content-IsPassed f s.world gone)

  mode_ne :
      (st : Stat) (mode : ℕ)
      → 512 ≤ mode
      → (if found fs st
          then (info fs st >>= (λ i. answer i.mode) >>= λ m. answer (perm m == mode))
          else refused resource_absent)
        ≢ answer true
  unfolding found info perm
  mode_ne missing mode large e = cc e
  mode_ne (stat_failed x) mode large e = cc e
  mode_ne (stated i) mode large e = ground (arith, e, ==_iff (i.mode % 512) mode, large)

  -- A file whose mode has more than the nine permission bits is never found in sync.
  pub is_mode_synced-ne :
      (bf : BaseFile W) (w : W) → 512 ≤ bf.mode → is_mode_synced fs bf w ≢ answer true
  unfolding is_mode_synced exists mode_of
  is_mode_synced-ne bf w large = mode_ne (fs.stat bf.path w) bf.mode large

  -- A write that went well leaves a regular file that reads as it was written.
  unfoldable pub Writes : Type 0
  Writes =
      (path content : String) (mode : ℕ) (w w₁ : W)
      → fs.write_file path content mode w ≡ (none, w₁)
      → (i : FileInfo) × (fs.stat path w₁ ≡ stated i)
        × (i.is_regular ≡ true)
        × (fs.read_file path w₁ ≡ answer content)

  -- After a file was created without an error, it is evaluated as present, and its content is in
  -- sync.
  pub create-evaluate :
      Writes
      → (f : File W) (w w₁ : W) → create fs f w ≡ (none, w₁)
      → (evaluate fs f w₁ ≡ ok (record { current = "present"; want = f.file.base.state }, none))
        × (is_content_synced fs f w₁ ≡ answer true)
  unfolding Writes create evaluate state_of is_content_synced exists found md5_of bytes
  create-evaluate writes f w w₁ e =
      let (i, at, regular, reads) = writes f.file.path (bytes fs f.content) f.file.mode w w₁ e in
      elim (Option-cases f.content) [
        | inl h ↦ (rw (at, regular) refl, rw h refl)
        | inr (c, h) ↦ (
          rw (at, regular) refl,
          rw (h, is_content_synced, at, found, reads, h, eq_refl, bytes) refl,
        )
      ]

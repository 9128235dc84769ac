-- ===== src/Resource/Directory/Contract.antt =====
-- Directories in the runs of a catalog.
use gru.Prelude.{
  ℕ, String, true, Option, none, [], ◌∷◌, ◌≡◌, refl, ◌⊎◌, Bool-cases, inl, inr, arith,
}
use gru.Errors.{Error, ok}
use gru.Utils.File.{FileInfo, Stat, missing, stat_failed, stated, Fs}
use gru.Resource.{State, Resource}
use gru.Resource.Settle.{Managed, IsReliable, IsEvaluated, IsAtRest, applied, settle}
use gru.Resource.Directory.{Directory, dir_state, evaluate, create, delete}
use gru.Catalog.Execute.{plan}

module _ {W : Type 0} (fs : Fs W) where
  -- What a call that makes or removes a directory leaves behind when it goes well.
  pub record DirCalls : Type 0 where
    pub made :
        (path : String) (mode : ℕ) (w w₁ : W)
        → fs.make_dir path mode w ≡ (none, w₁)
        → (i : FileInfo) × (fs.stat path w₁ ≡ stated i) × (i.is_dir ≡ true)
    pub all_made :
        (path : String) (mode : ℕ) (w w₁ : W)
        → fs.make_dirs path mode w ≡ (none, w₁)
        → (i : FileInfo) × (fs.stat path w₁ ≡ stated i) × (i.is_dir ≡ true)
    pub removed :
        (path : String) (w w₁ : W) → fs.remove_file path w ≡ (none, w₁) → fs.stat path w₁ ≡ missing
    pub all_removed :
        (path : String) (w w₁ : W) → fs.remove_all path w ≡ (none, w₁) → fs.stat path w₁ ≡ missing

  abbrev pub managed : Directory W → Managed W
  managed d = record {
    want = d.file.base.state;
    evaluate = evaluate fs d;
    create = create fs d;
    delete = delete fs d;
  }

  dir_state-want :
      (want : String) (s : Stat) (st : State) (e : Option Error)
      → dir_state fs want s ≡ ok (st, e)
      → st.want ≡ want
  unfolding dir_state
  dir_state-want want missing st e h = cc h
  dir_state-want want (stat_failed x) st e h = cc h
  dir_state-want want (stated i) st e h = cc h

  dir_state_made :
      (want path : String) (w : W)
      → (i : FileInfo) × (fs.stat path w ≡ stated i) × (i.is_dir ≡ true)
      → dir_state fs want (fs.stat path w) ≡ ok (record { current = "present"; want = want }, none)
  unfolding dir_state
  dir_state_made want path w (i, at, folder) = rw (at, dir_state, folder) refl

  dir_state_removed :
      (want path : String) (w : W)
      → fs.stat path w ≡ missing
      → dir_state fs want (fs.stat path w) ≡ ok (record { current = "absent"; want = want }, none)
  unfolding dir_state
  dir_state_removed want path w gone = rw (gone, dir_state) refl

  managed-IsReliable : DirCalls → (d : Directory W) → IsReliable (managed d)
  unfolding evaluate create delete
  managed-IsReliable calls d =
      let path = d.file.path in
      let want = d.file.base.state in
      record {
        want = λ st w e h. dir_state-want want (fs.stat path w) st e h;
        created = λ w w₁ did. dir_state_made want path w₁ (elim (Bool-cases d.parents) [
          | inl all ↦ calls.all_made path d.file.mode w w₁ (ground (arith, all, did))
          | inr one ↦ calls.made path d.file.mode w w₁ (ground (arith, one, did))
        ]);
        deleted = λ w w₁ did. dir_state_removed want path w₁ (elim (Bool-cases d.parents) [
          | inl all ↦ calls.all_removed path w w₁ (ground (arith, all, did))
          | inr one ↦ calls.removed path w w₁ (ground (arith, one, did))
        ]);
      }

  -- Where a directory is wanted present or absent, was evaluated without an error, and the action
  -- that the catalog plans for it went well, with its parents or without, the next evaluation comes
  -- without an error and nothing is planned.
  pub directory-IsAtRest :
      DirCalls
      → (d : Directory W) (r : Resource W) → r.present_states ≡ "present" ∷ []
      → r.absent_states ≡ "absent" ∷ []
      → (d.file.base.state ≡ "present") ⊎ (d.file.base.state ≡ "absent")
      → (st : State) (w w₁ : W) → IsEvaluated (managed d) st w
      → applied (managed d) (plan r st) w ≡ (none, w₁)
      → IsAtRest (managed d) r w₁
  directory-IsAtRest calls d r present absent wanted st w w₁ e did =
      settle r present absent (managed d) (managed-IsReliable calls d) wanted st w w₁ e did

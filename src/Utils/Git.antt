-- ===== src/Utils/Git.antt =====
-- utils/git.go: each operation is a run of the Git tool. Running a program is the parameter `exec`:
-- the output, and the error of the run.
use gru.Prelude.{String, Bool, true, false, Option, none, some, List, [], ◌∷◌}
use gru.Errors.{Error}

abbrev pub Exec : Type 0 → Type 0
Exec W = String → List String → W → String × Option Error × W

-- The error and the world of a command, whose output is dropped.
unfoldable pub dropped : {W : Type 0} → String × Option Error × W → Option Error × W
dropped (out, e, w) = (e, w)

pub record GitRepo : Type 0 where
  pub path : String
  pub upstream : String
  pub git : String

-- `look_path` is exec.LookPath.
unfoldable pub new_git_repo :
    (String → String × Option Error) → String → String → Option GitRepo × Option Error
new_git_repo look_path path upstream =
    let (cmd, e) = look_path "git" in
    elim e [
      | some e₁ ↦ (none, some e₁)
      | none ↦ (some (record { path = path; upstream = upstream; git = cmd }), none)
    ]

module _ {W : Type 0} (exec : Exec W) (gr : GitRepo) where
  unfoldable pub fetch : String → W → String × Option Error × W
  fetch remote = exec gr.git ("-C" ∷ gr.path ∷ "fetch" ∷ remote ∷ [])

  unfoldable pub checkout : String → W → String × Option Error × W
  checkout branch = exec gr.git ("-C" ∷ gr.path ∷ "checkout" ∷ branch ∷ [])

  unfoldable pub pull : String → String → W → String × Option Error × W
  unfolding checkout
  pull remote branch w =
      let (out, e, w₁) = checkout branch w in
      elim e [
        | some e₁ ↦ (out, some e₁, w₁)
        | none ↦ exec gr.git ("-C" ∷ gr.path ∷ "pull" ∷ remote ∷ []) w₁
      ]

  unfoldable pub checkout_detached : String → W → String × Option Error × W
  checkout_detached branch = exec gr.git ("-C" ∷ gr.path ∷ "checkout" ∷ "--detach" ∷ branch ∷ [])

  unfoldable pub clone : W → String × Option Error × W
  clone = exec gr.git ("clone" ∷ gr.upstream ∷ gr.path ∷ [])

  -- `trim` is strings.Trim with the newline as its cutset.
  unfoldable pub head : (String → String) → W → String × Option Error × W
  head trim w =
      let (out, e, w₁) = exec gr.git ("-C" ∷ gr.path ∷ "rev-parse" ∷ "--short" ∷ "HEAD" ∷ []) w in
      elim e [ some e₁ ↦ ("", some e₁, w₁) | none ↦ (trim out, none, w₁) ]

  unfoldable pub is_git_repo : W → Bool × W
  is_git_repo w =
      let (out, e, w₁) = exec gr.git ("-C" ∷ gr.path ∷ "rev-parse" ∷ []) w in
      elim e [ some _ ↦ (false, w₁) | none ↦ (true, w₁) ]

-- ===== src/Minion/Sync.antt =====
-- `Sync` and `setEnvironment`: the site repository of the minion.
use gru.Prelude.{String, Option, none, some, str_eq, if◌then◌else◌}
use gru.Errors.{Error, no_site_repo, not_git_repo}
use gru.Utils.Git.{fetch, clone, checkout_detached, head, is_git_repo, dropped}
use gru.Minion.{Host}
use gru.Minion.Keys.{Minion}

module _ {W : Type 0} (host : Host W) (m : Minion) where
  unfoldable pub sync : W → Option Error × W
  unfolding dropped
  sync w =
      if str_eq m.git_repo.upstream ""
      then (some no_site_repo, w)
      else if host.path_missing m.git_repo.path w
      then dropped (clone host.exec m.git_repo w)
      else let (valid, w₁) = is_git_repo host.exec m.git_repo w in
        if valid
        then dropped (fetch host.exec m.git_repo "origin" w₁)
        else (some (not_git_repo m.git_repo.path), w₁)

  unfoldable pub set_environment : String → W → Option Error × W
  unfolding dropped
  set_environment name w =
      let (out, e, w₁) = checkout_detached host.exec m.git_repo name w in
      elim e [ some e₁ ↦ (some e₁, w₁) | none ↦ dropped (head host.exec m.git_repo host.trim w₁) ]

-- ===== src/Command/Local/Contract.antt =====
-- What `gructl apply` comes to, and what minion `gructl serve` starts.
use gru.Prelude.{
  ℕ, zero, suc, ◌<◌, ℤ, pos, negsuc, String, Option, none, some, List, ◌∷◌, ◌≡◌, ◌≢◌, refl, ap,
  subst, sym, arith, Bool-cases, Option-cases, inl, inr, str_eq, eq_iff, if◌then◌else◌,
}
use gru.Errors.{Error, Result, ok, err, panic}
use gru.Graph.Sets.{MapSet}
use gru.Resource.{Resource}
use gru.Classifier.{Registry}
use gru.Utils.Git.{GitRepo, new_git_repo}
use gru.Catalog.{Config, Line}
use gru.Minion.{Host}
use gru.Minion.Keys.{Minion, new_minion, Site, minion_with, minion_in, new_etcd_minion, join}
use gru.Minion.Runs.{CatalogRun, load_failed, ran, run_catalog}
use gru.Minion.Runs.Contract.{IsSound, IsOutcome, run_catalog-IsOutcome}
use gru.Minion.Services.{Services, start}
use gru.Command.{Exit, done, crashed}
use gru.Command.Local.{
  LocalFlags, workers, applied, apply_config, exec_apply_command, waiting, served, serve_as,
  exec_serve_command,
}

workers-pos : (num_cpu : ℕ) (c : ℤ) → 0 < num_cpu → c ≢ pos 0 → 0 < workers num_cpu c
unfolding workers
workers-pos num_cpu (pos zero) cpus set = absurd (set refl)
workers-pos num_cpu (pos (suc n)) cpus set = omega arith
workers-pos num_cpu (negsuc n) cpus set = cpus

module _ (sets : MapSet) {W : Type 0} (host : Host W) (num_cpu : ℕ) (flags : LocalFlags) where
  -- What `apply` makes of the outcome of the catalog.
  IsApplied : String → W → Exit (List Line) × W → Type 0
  IsApplied main w p =
      let config = apply_config sets host num_cpu flags main in
      (r : CatalogRun × W) × IsOutcome sets host config (host.do_file config w) r
      × (p ≡ applied r)
      × (p.0 ≢ crashed)

  outcome-ne_crashed :
      (config : Config) (q : List (Option (Resource W)) × Option Error × W) (r : CatalogRun × W)
      → IsOutcome sets host config q r
      → (applied r).0 ≢ crashed
  unfolding applied
  outcome-ne_crashed config (rs, some e, w) r h bad = absurd (cc (ap (λ x. (applied x).0) h, bad))
  outcome-ne_crashed config (rs, none, w) (load_failed e, v) h bad = cc bad
  outcome-ne_crashed config (rs, none, w) (ran lines, v) h bad = cc bad
  outcome-ne_crashed config (rs, none, w) (CatalogRun.crashed, v) h bad = h

  -- `gructl apply` on a module, with the flag of the concurrency anything but 0 and no
  -- resource that dereferences nil in its own methods, prints the log of a
  -- run of the module's catalog that went to its end, or exits with the error of the load; it never
  -- panics.
  exec_apply_command-IsApplied :
      (main : String) (more : List String) (w : W)
      → flags.args ≡ main ∷ more
      → IsSound host
      → 0 < num_cpu
      → flags.concurrency ≢ pos 0
      → IsApplied main w (exec_apply_command sets host num_cpu flags w)
  unfolding exec_apply_command apply_config IsApplied
  exec_apply_command-IsApplied main more w given sound cpus set =
      let config = apply_config sets host num_cpu flags main in
      let r = run_catalog sets host config w in
      let out =
        run_catalog-IsOutcome sets host config w (sound config w)
          (workers-pos num_cpu flags.concurrency cpus set) in
      (r, out, rw given refl, rw given (outcome-ne_crashed config (host.do_file config w) r out))

  -- A minion with a worker and an upstream repository.
  pub IsEquipped : Minion → Type 0
  IsEquipped m =
      (0 < m.concurrency) × (m.git_repo.upstream ≡ flags.siterepo) × (flags.siterepo ≢ "")

  new_git_repo-upstream :
      (look_path : String → String × Option Error) (path upstream : String) (repo : GitRepo)
      → new_git_repo look_path path upstream ≡ (some repo, none)
      → repo.upstream ≡ upstream
  unfolding new_git_repo
  new_git_repo-upstream look_path path upstream repo e =
      let (cmd, fault) = look_path "git" in
      elim (Option-cases fault) [
        | inl h ↦
            let made : GitRepo = record { path = path; upstream = upstream; git = cmd } in
            let same : made ≡ repo = ground (arith, h, e) in
            sym (ap (λ (r : GitRepo). r.upstream) same)
        | inr (x, h) ↦ absurd (ground (arith, h, e))
      ]

  minion_with-IsEquipped :
      (site : Site W) (name : String) (c : ℕ) (p : Option GitRepo × Option Error) (m : Minion)
      → 0 < c
      → flags.siterepo ≢ ""
      → ((repo : GitRepo) → p ≡ (some repo, none) → repo.upstream ≡ flags.siterepo)
      → minion_with site name c p ≡ ok m
      → IsEquipped m
  unfolding minion_with new_minion IsEquipped
  minion_with-IsEquipped site name c (some repo, none) m busy given upstream e =
      let same : new_minion name (site.generate_uuid name) repo c ≡ m = cc e in
      subst
        (λ (x : Minion).
          (0 < x.concurrency) × (x.git_repo.upstream ≡ flags.siterepo) × (flags.siterepo ≢ ""))
        same (busy, upstream repo refl, given)
  minion_with-IsEquipped site name c (repo, some x) m busy given upstream e = absurd (cc e)
  minion_with-IsEquipped site name c (none, none) m busy given upstream e = absurd (cc e)

  minion_in-IsEquipped :
      (site : Site W) (name : String) (c : ℕ) (p : String × Option Error) (m : Minion)
      → 0 < c
      → flags.siterepo ≢ ""
      → minion_in site name flags.siterepo c p ≡ ok m
      → IsEquipped m
  unfolding minion_in
  minion_in-IsEquipped site name c (cwd, some x) m busy given e = absurd (cc e)
  minion_in-IsEquipped site name c (cwd, none) m busy given e =
      minion_with-IsEquipped site name c
        (new_git_repo site.look_path (join cwd "site") flags.siterepo) m busy given
        (new_git_repo-upstream site.look_path (join cwd "site") flags.siterepo) e

  new_etcd_minion-IsEquipped :
      (site : Site W) (name : String) (c : ℕ) (w : W) (m : Minion)
      → 0 < c
      → flags.siterepo ≢ ""
      → new_etcd_minion site name flags.siterepo c w ≡ ok m
      → IsEquipped m
  unfolding new_etcd_minion
  new_etcd_minion-IsEquipped site name c w m busy given e = elim (Option-cases site.etcd_new) [
    | inl h ↦ minion_in-IsEquipped site name c (site.getwd w) m busy given (ground (arith, h, e))
    | inr (x, h) ↦ absurd (ground (arith, h, e))
  ]

  waiting-done :
      (n : Minion) (r : Result (Services W)) (m : Minion) (s : Services W)
      → waiting sets host num_cpu n r ≡ done (m, s)
      → (n ≡ m) × (r ≡ ok s)
  unfolding waiting
  waiting-done n (ok t) m s e = (cc e, cc e)
  waiting-done n (err x) m s e = absurd (cc e)
  waiting-done n panic m s e = absurd (cc e)

  served-made :
      (registry : Registry W) (r : Result Minion) (w : W) (m : Minion) (s : Services W)
      → served sets host num_cpu registry r w ≡ done (m, s)
      → (r ≡ ok m) × (start sets host m registry w ≡ ok s)
  unfolding served
  served-made registry (ok n) w m s e =
      let (same, begins) = waiting-done n (start sets host n registry w) m s e in
      (ap ok same, subst (λ x. start sets host x registry w ≡ ok s) same begins)
  served-made registry (err x) w m s e = absurd (cc e)
  served-made registry panic w m s e = absurd (cc e)

  serve_as-IsEquipped :
      (site : Site W) (registry : Registry W) (p : String × Option Error) (w : W) (m : Minion)
      (s : Services W)
      → 0 < num_cpu
      → flags.concurrency ≢ pos 0
      → serve_as sets host num_cpu site registry flags p w ≡ done (m, s)
      → IsEquipped m × (start sets host m registry w ≡ ok s)
  unfolding serve_as
  serve_as-IsEquipped site registry (hostname, some x) w m s cpus set e = absurd (cc e)
  serve_as-IsEquipped site registry (hostname, none) w m s cpus set e =
      elim (Bool-cases (str_eq flags.siterepo "")) [
        | inl h ↦ absurd (ground (arith, h, e))
        | inr h ↦
            let c = workers num_cpu flags.concurrency in
            let name = if str_eq flags.name "" then hostname else flags.name in
            let run : served sets host num_cpu registry
                  (new_etcd_minion site name flags.siterepo c w) w
                ≡ done (m, s) =
              ground (arith, h, e) in
            let (made, begins) =
              served-made registry (new_etcd_minion site name flags.siterepo c w) w m s run in
            let given : flags.siterepo ≢ "" =
              λ empty. ground (arith, h, eq_iff flags.siterepo "", empty) in
            (
              new_etcd_minion-IsEquipped site name c w m
                  (workers-pos num_cpu flags.concurrency cpus set) given made,
              begins,
            )
      ]

  -- A minion that `gructl serve` starts, with the flag of the concurrency anything but 0, has a
  -- worker for its catalogs and the upstream repository of the flag, which is not empty; and its
  -- services are those that `Serve` starts.
  pub exec_serve_command-IsEquipped :
      (hostname : W → String × Option Error) (site : Site W) (registry : Registry W) (w : W)
      (m : Minion) (s : Services W)
      → 0 < num_cpu
      → flags.concurrency ≢ pos 0
      → exec_serve_command sets host num_cpu hostname site registry flags w ≡ done (m, s)
      → IsEquipped m × (start sets host m registry w ≡ ok s)
  unfolding exec_serve_command
  exec_serve_command-IsEquipped hostname site registry w m s cpus set e =
      serve_as-IsEquipped site registry (hostname w) w m s cpus set e

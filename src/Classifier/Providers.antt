-- ===== src/Classifier/Providers.antt =====
-- classifier/arch.go, fqdn.go, lsb.go and os.go: the providers of classifiers, and the registry that
-- their init functions fill.
use gru.Prelude.{
  String, Bool-cases, false, Option, none, some, List, [], ◌∷◌, ◌≡◌, refl, sym, subst, eq_iff, ◌↔◌,
  ◌<◌, length, inl, inr, arith, insert, lookup, str_eq, if◌then◌else◌,
}
use gru.Errors.{Error}
use gru.Utils.Git.{Exec}
use gru.Classifier.{Provider, Registry, register, get, evaluated}

-- The parts of the packages `runtime`, os, os/exec and strings that the providers use.
pub record System (W : Type 0) : Type 0 where
  pub goarch : String
  pub goos : String
  pub hostname : W → String × Option Error × W
  -- What the command writes to stdout.
  pub exec : Exec W
  pub split : String → String → List String
  pub trim_space : String → String

module _ {W : Type 0} (system : System W) where
  unfoldable pub arch_provider : Provider W
  arch_provider w = some (system.goarch, none, w)

  unfoldable pub os_provider : Provider W
  os_provider w = some (system.goos, none, w)

  unfoldable pub fqdn_provider : Provider W
  fqdn_provider w = some (system.hostname w)

  -- data[1] is out of range where the output has no colon.
  unfoldable pub second_field : List String → W → Option (String × Option Error × W)
  second_field (a ∷ b ∷ rest) w = some (system.trim_space b, none, w)
  second_field _ w = none

  unfoldable pub lsb_output : String × Option Error × W → Option (String × Option Error × W)
  unfolding second_field
  lsb_output (out, some e, w) = some ("", some e, w)
  lsb_output (out, none, w) = second_field (system.split out ":") w

  unfoldable pub run_lsb_release_tool : List String → W → Option (String × Option Error × W)
  unfolding lsb_output
  run_lsb_release_tool args w = lsb_output (system.exec "/usr/bin/lsb_release" args w)

  unfoldable pub id_provider : Provider W
  unfolding run_lsb_release_tool
  id_provider = run_lsb_release_tool ("--id" ∷ [])

  unfoldable pub desc_provider : Provider W
  unfolding run_lsb_release_tool
  desc_provider = run_lsb_release_tool ("--description" ∷ [])

  unfoldable pub release_provider : Provider W
  unfolding run_lsb_release_tool
  release_provider = run_lsb_release_tool ("--release" ∷ [])

  unfoldable pub codename_provider : Provider W
  unfolding run_lsb_release_tool
  codename_provider = run_lsb_release_tool ("--codename" ∷ [])

  -- The init functions, in the order of their files.
  unfoldable pub registry : Registry W
  unfolding register
  registry = register "os" os_provider (
      register "lsbdistcodename" codename_provider (
        register "lsbdistrelease" release_provider (
          register "lsbdistdesc" desc_provider (
            register "lsbdistid" id_provider
              (register "fqdn" fqdn_provider (register "arch" arch_provider []))))))

  -- The option that lsb_release takes for a key.
  pub lsb_option : String → Option String
  lsb_option key =
      if str_eq "lsbdistid" key
      then some "--id"
      else if str_eq "lsbdistdesc" key
      then some "--description"
      else if str_eq "lsbdistrelease" key
      then some "--release"
      else if str_eq "lsbdistcodename" key
      then some "--codename"
      else none

  -- lsb_release succeeds, and its output has no colon.
  pub HasNoColon : String × Option Error × W → Type 0
  HasNoColon (out, e, w) = (e ≡ none) × (length (system.split out ":") < 2)

  second_field-none :
      (fields : List String) (w : W) → (second_field fields w ≡ none) ↔ (length fields < 2)
  unfolding second_field
  second_field-none [] w = ground arith
  second_field-none (a ∷ []) w = ground arith
  second_field-none (a ∷ b ∷ rest) w = ((λ h. absurd (cc h)), (λ h. absurd (omega (arith, h))))

  lsb_output-none : (p : String × Option Error × W) → (lsb_output p ≡ none) ↔ HasNoColon p
  unfolding lsb_output HasNoColon
  lsb_output-none (out, some e, w) = ((λ h. absurd (cc h)), (λ h. absurd (cc h.0)))
  lsb_output-none (out, none, w) =
      let (to, from) = second_field-none (system.split out ":") w in
      ((λ h. (refl, to h)), (λ h. from h.1))

  evaluated-none :
      (key : String) (o : Option (String × Option Error × W))
      → (evaluated key o ≡ none) ↔ (o ≡ none)
  unfolding evaluated
  evaluated-none key none = ((λ h. refl), (λ h. refl))
  evaluated-none key (some r) = ((λ h. absurd (cc h)), (λ h. absurd (cc h)))

  get-none :
      (known : Registry W) (key : String) (p : Provider W) (w : W)
      → lookup key known ≡ some p
      → (get known key w ≡ none) ↔ (p w ≡ none)
  unfolding get
  get-none known key p w at = rw (at, get) (evaluated-none key (p w))

  -- The key is one of lsb_release, which succeeds with an output that has no colon.
  pub IsSplitless : String → W → Type 0
  IsSplitless key w =
      (option : String) × (lsb_option key ≡ some option)
      × HasNoColon (system.exec "/usr/bin/lsb_release" (option ∷ []) w)

  module _ (w : W) where
    abbrev Panics : String → Type 0
    Panics key = (get registry key w ≡ none) ↔ IsSplitless key w

    lsb-Panics :
        (key option : String)
        → lookup key registry ≡ some (run_lsb_release_tool (option ∷ []))
        → lsb_option key ≡ some option
        → Panics key
    unfolding IsSplitless run_lsb_release_tool
    lsb-Panics key option at takes =
        let (to, from) = get-none registry key (run_lsb_release_tool (option ∷ [])) w at in
        let (bare, back) = lsb_output-none (system.exec "/usr/bin/lsb_release" (option ∷ []) w) in
        (
          (λ h. (option, takes, bare (to h))),
          (λ (other, takes₁, none_there).
              let same : option ≡ other = cc (takes, takes₁) in
              from (
                back (
                  subst (λ x. HasNoColon (system.exec "/usr/bin/lsb_release" (x ∷ []) w)) (sym same)
                    none_there))),
        )

    other-Panics :
        (key : String) (p : Provider W) (r : String × Option Error × W)
        → lookup key registry ≡ some p
        → p w ≡ some r
        → lsb_option key ≡ none
        → Panics key
    unfolding IsSplitless
    other-Panics key p r at gives takes =
        let (to, from) = get-none registry key p w at in
        (
          (λ h. absurd (cc (gives, to h))),
          (λ (other, takes₁, none_there). absurd (cc (takes, takes₁))),
        )

    missing-Panics :
        (key : String) → lookup key registry ≡ none → lsb_option key ≡ none → Panics key
    unfolding get IsSplitless
    missing-Panics key at takes =
        ((λ h. absurd (ground (arith, at, h))), (λ (other, takes₁, _). absurd (cc (takes, takes₁))))

    key-Panics : (k key : String) → Panics k → (str_eq k key ≡ false → Panics key) → Panics key
    key-Panics k key found otherwise = elim (Bool-cases (str_eq k key)) [
      | inl h ↦ subst Panics ((eq_iff k key).0 h) found
      | inr h ↦ otherwise h
    ]

    -- A provider panics exactly on a key of lsb_release where that tool succeeds and its output has
    -- no colon; the other keys, those that no provider has among them, never panic.
    pub get-IsSplitless : (key : String) → (get registry key w ≡ none) ↔ IsSplitless key w
    unfolding registry register insert lookup lsb_option arch_provider fqdn_provider os_provider
        id_provider desc_provider release_provider codename_provider
    get-IsSplitless key =
        key-Panics "arch" key
          (other-Panics "arch" arch_provider (system.goarch, none, w) refl refl refl)
          (λ h0.
            key-Panics "fqdn" key
              (other-Panics "fqdn" fqdn_provider (system.hostname w) refl refl refl)
              (λ h1.
                key-Panics "os" key
                  (other-Panics "os" os_provider (system.goos, none, w) refl refl refl)
                  (λ h2. key-Panics "lsbdistid" key (lsb-Panics "lsbdistid" "--id" refl refl) (λ h3.
                    key-Panics "lsbdistdesc" key
                      (lsb-Panics "lsbdistdesc" "--description" refl refl)
                      (λ h4.
                        key-Panics "lsbdistrelease" key
                          (lsb-Panics "lsbdistrelease" "--release" refl refl)
                          (λ h5.
                            key-Panics "lsbdistcodename" key
                              (lsb-Panics "lsbdistcodename" "--codename" refl refl)
                              (λ h6.
                                missing-Panics key (ground (arith, h0, h1, h2, h3, h4, h5, h6))
                                  (ground (arith, h3, h4, h5, h6)))))))))

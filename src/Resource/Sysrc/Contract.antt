-- ===== src/Resource/Sysrc/Contract.antt =====
-- Variables of rc.conf in the runs of a catalog.
use gru.Prelude.{
  String, not, Option, none, some, [], ◌∷◌, ◌≡◌, ◌≢◌, refl, ap, str_eq, if◌then◌else◌, eq_refl,
  ne→str_eq-false, subst,
}
use gru.Errors.{Error}
use gru.Utils.Git.{Exec, dropped}
use gru.Utils.Strings.{is_in_list, contains, new_list}
use gru.Resource.{Resource}
use gru.Resource.Sysrc.{Sysrc, evaluate, asked, parsed, parse_sysrc_output, create, setting}
use gru.Catalog.Execute.{plan, in_sync}

module _ {W : Type 0} (exec : Exec W) (find_match : String → Option (String × String)) where
  -- `sysrc` prints a variable of a given value in a way that the expression takes apart.
  abbrev pub IsPrinted : String → String → String × Option Error × W → Type 0
  IsPrinted name value (out, e, w) = (e ≡ none) × (find_match out ≡ some (name, value))

  -- A variable that `sysrc` was told to set has that value from then on.
  unfoldable pub Remembers : Sysrc W → Type 0
  Remembers s =
      (w : W)
      → (exec "sysrc" (setting exec find_match s ∷ []) w).1 ≡ none
      → IsPrinted s.base.name s.value
          (exec "sysrc" (s.base.name ∷ []) (exec "sysrc" (setting exec find_match s ∷ []) w).2)

  asked-printed :
      (s : Sysrc W) (value : String) (o : String × Option Error × W)
      → IsPrinted s.base.name value o
      → asked exec find_match s o ≡ (
        record {
          current = if not (str_eq s.value value) then "absent" else "present";
          want = s.base.state;
        },
        none,
        o.2,
      )
  unfolding asked parsed parse_sysrc_output
  asked-printed s value (out, some e, w) (bad, matches) = cc bad
  asked-printed s value (out, none, w) (fine, matches) =
      rw (matches, parsed, eq_refl s.base.name) refl

  -- After a variable was created without an error, it is evaluated as present with no error.
  pub evaluate-create :
      (s : Sysrc W) (w w₁ : W)
      → Remembers s
      → create exec find_match s w ≡ (none, w₁)
      → ((evaluate exec find_match s w₁).0 ≡ record { current = "present"; want = s.base.state })
        × ((evaluate exec find_match s w₁).1 ≡ none)
  unfolding Remembers create evaluate setting dropped
  evaluate-create s w w₁ remembers h =
      let set = exec "sysrc" (setting exec find_match s ∷ []) w in
      let name = s.base.name in
      let printed = remembers w (ap (λ p. p.0) h) in
      let there : asked exec find_match s (exec "sysrc" (name ∷ []) set.2) ≡ (
        record { current = "present"; want = s.base.state },
        none,
        (exec "sysrc" (name ∷ []) set.2).2,
      ) =
        rw (asked-printed s s.value (exec "sysrc" (name ∷ []) set.2) printed, eq_refl s.value)
          refl in
      let at : set.2 ≡ w₁ = ap (λ p. p.1) h in
      subst
        (λ v.
          ((evaluate exec find_match s v).0 ≡ record { current = "present"; want = s.base.state })
          × ((evaluate exec find_match s v).1 ≡ none))
        at (ap (λ p. p.0) there, ap (λ p. p.1) there)

  -- A variable that has another value than the resource's is never removed: where it is wanted
  -- absent, it is evaluated as absent already, and nothing is planned.
  pub plan-other_value :
      (s : Sysrc W) (r : Resource W) (w : W) (value : String)
      → r.present_states ≡ "present" ∷ []
      → r.absent_states ≡ "absent" ∷ []
      → s.base.state ≡ "absent"
      → s.value ≢ value
      → IsPrinted s.base.name value (exec "sysrc" (s.base.name ∷ []) w)
      → plan r (evaluate exec find_match s w).0 ≡ in_sync
  unfolding evaluate plan is_in_list contains new_list
  plan-other_value s r w value present absent wanted other printed =
      let o = exec "sysrc" (s.base.name ∷ []) w in
      rw
        (
          asked-printed s value o printed,
          ne→str_eq-false s.value value other,
          present,
          absent,
          wanted,
        )
        refl

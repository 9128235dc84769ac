-- ===== src/Prelude/Maps.antt =====
-- Go maps with string keys, as association lists. The order of the entries stands for the order
-- in which `range` visits them, which Go leaves open.
use Prim.Native.String.{String}
use mathlib.Core.Path.{◌≡◌, refl}
use mathlib.Core.Bool.{Bool, true, false, ◌||◌}
use mathlib.Core.Option.{Option, none, some}
use mathlib.Core.List.{List, [], ◌∷◌}
use native.Mathlib.Omega.{arith}
use text.Mathlib.Text.{◌==◌ as str_eq}
use text.Mathlib.TextEquality.{eq_iff}
use mathlib.Core.Logic.{inl, inr}
use gru.Prelude.Tests.{if◌then◌else◌, Bool-cases}

abbrev pub Map {ℓ} : Type ℓ → Type ℓ
Map V = List (String × V)

module _ {ℓ} {V : Type ℓ} where
  -- v, ok := m[k]
  unfoldable pub lookup : String → Map V → Option V
  lookup k [] = none
  lookup k ((j, v) ∷ m) = if str_eq j k then some v else lookup k m

  -- m[k] = v
  unfoldable pub insert : String → V → Map V → Map V
  insert k v [] = (k, v) ∷ []
  insert k v ((j, w) ∷ m) = if str_eq j k then (k, v) ∷ m else (j, w) ∷ insert k v m

  -- delete(m, k)
  unfoldable pub remove : String → Map V → Map V
  remove k [] = []
  remove k ((j, v) ∷ m) = let rest = remove k m in if str_eq j k then rest else (j, v) ∷ rest

  pub lookup-insert :
      (k j : String) (v : V) (m : Map V)
      → lookup j (insert k v m) ≡ (if str_eq k j then some v else lookup j m)
  unfolding lookup insert
  lookup-insert k j v [] = refl
  lookup-insert k j v ((first, old) ∷ rest) =
      ground (arith, lookup-insert k j v rest, eq_iff first k, eq_iff first j, eq_iff k j)

  pub lookup-remove :
      (k j : String) (m : Map V) → lookup j (remove k m) ≡ (if str_eq k j then none else lookup j m)
  unfolding lookup remove
  lookup-remove k j [] = ground arith
  lookup-remove k j ((first, old) ∷ rest) =
      ground (arith, lookup-remove k j rest, eq_iff first k, eq_iff first j, eq_iff k j)

  -- _, ok := m[k]
  abbrev pub has_key : String → Map V → Bool
  has_key k [] = false
  has_key k ((j, v) ∷ m) = str_eq j k || has_key k m

  -- No key stands in the list twice, as in every Go map.
  abbrev pub IsMap : Map V → Type 0
  IsMap [] = Unit
  IsMap ((k, v) ∷ m) = (has_key k m ≡ false) × IsMap m

  pub has_key-insert :
      (k j : String) (v : V) (m : Map V) → has_key j (insert k v m) ≡ (str_eq k j || has_key j m)
  unfolding insert
  has_key-insert k j v [] = refl
  has_key-insert k j v ((first, old) ∷ rest) =
      ground (arith, has_key-insert k j v rest, eq_iff first k, eq_iff first j, eq_iff k j)

  pub insert-IsMap : (k : String) (v : V) (m : Map V) → IsMap m → IsMap (insert k v m)
  unfolding insert
  insert-IsMap k v [] u = (refl, tt)
  insert-IsMap k v ((i, w) ∷ m) u = elim (Bool-cases (str_eq i k)) [
    | inl same ↦ rw same (ground (arith, eq_iff i k, u.0), u.1)
    | inr other ↦ rw other (
      ground (arith, has_key-insert k i v m, eq_iff i k, eq_iff k i, u.0),
      insert-IsMap k v m u.1,
    )
  ]

  abbrev pub is_some : Option V → Bool
  is_some none = false
  is_some (some v) = true

  pub is_some-lookup : (k : String) (m : Map V) → is_some (lookup k m) ≡ has_key k m
  unfolding lookup
  is_some-lookup k [] = refl
  is_some-lookup k ((j, v) ∷ m) = ground (arith, is_some-lookup k m)

-- Texts in a list.
abbrev pub mem_str : String → List String → Bool
mem_str s [] = false
mem_str s (t ∷ ts) = str_eq t s || mem_str s ts

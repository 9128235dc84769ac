-- ===== src/Classifier.antt =====
-- classifier/classifier.go: the registry of classifiers.
pub mod Providers
use gru.Prelude.{String, Option, none, some, Map, lookup, insert}
use gru.Errors.{Error, classifier_not_found}

pub record Classifier : Type 0 where
  pub key : String
  pub value : String

-- A provider evaluates a classifier; it reads the system.  On none it panics.
abbrev pub Provider : Type 0 → Type 0
Provider W = W → Option (String × Option Error × W)

abbrev pub Registry : Type 0 → Type 0
Registry W = Map (Provider W)

module _ {W : Type 0} where
  unfoldable pub register : String → Provider W → Registry W → Registry W
  register key p registry = insert key p registry

  unfoldable pub evaluated :
      String → Option (String × Option Error × W) → Option (Classifier × Option Error × W)
  evaluated key none = none
  evaluated key (some (value, e, w)) = some (record { key = key; value = value }, e, w)

  -- The classifier comes beside the error of its provider; an unknown key has an empty one.
  unfoldable pub get : Registry W → String → W → Option (Classifier × Option Error × W)
  unfolding evaluated
  get registry key w = elim (lookup key registry) [
    | none ↦ some (record { key = ""; value = "" }, some classifier_not_found, w)
    | some p ↦ evaluated key (p w)
  ]

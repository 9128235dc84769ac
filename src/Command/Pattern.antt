-- ===== src/Command/Pattern.antt =====
-- gructl/command/utils.go: the minions that a classifier pattern selects.
use gru.Prelude.{String, Bool, List, [], ◌∷◌, str_eq, if◌then◌else◌}
use gru.Errors.{Result, ok, err, panic}
use gru.Client.Interface.{Client}
use gru.Command.{Cli}

module _ {W : Type 0} (cli : Cli W) (klient : Client W) where
  -- The end of a turn of the loop over the minions.
  unfoldable pub keep_if : Bool → String → Result (List String) × W → Result (List String) × W
  keep_if b m (ok rest, w) = (ok (if b then m ∷ rest else rest), w)
  keep_if b m (err e, w) = (err e, w)
  keep_if b m (panic, w) = (panic, w)

  -- The loop over the minions that have the key.
  unfoldable pub matching : (String → Bool) → String → List String → W → Result (List String) × W
  unfolding keep_if
  matching match key [] w = (ok [], w)
  matching match key (m ∷ ms) w =
      let (r, w₁) = klient.classifier m key w in
      elim r [
        | ok c ↦ keep_if (match c.value) m (matching match key ms w₁)
        | err e ↦ (err e, w₁)
        | panic ↦ (panic, w₁)
      ]

  -- What follows the search for the key.
  unfoldable pub matching_of :
      (String → Bool) → String → Result (List String) × W → Result (List String) × W
  unfolding matching
  matching_of match key (ok ms, w) = matching match key ms w
  matching_of match key (err e, w) = (err e, w)
  matching_of match key (panic, w) = (panic, w)

  unfoldable pub match_value : Result (String → Bool) → String → W → Result (List String) × W
  unfolding matching_of
  match_value (ok match) key w = matching_of match key (klient.with_classifier_key key w)
  match_value (err e) key w = (err e, w)
  match_value panic key w = (panic, w)

  -- The parts of the pattern: the key, and the regular expression if there is one.
  unfoldable pub select_by : List String → W → Result (List String) × W
  unfolding match_value
  select_by [] w = (panic, w)
  select_by (key ∷ []) w = klient.with_classifier_key key w
  select_by (key ∷ expression ∷ _) w = match_value (cli.compile expression) key w

  unfoldable pub parse_classifier_pattern : String → W → Result (List String) × W
  unfolding select_by
  parse_classifier_pattern pattern w =
      if str_eq pattern "" then klient.list w else select_by (cli.split_n pattern "=" 2) w

-- ===== src/Client/Search.antt =====
-- `MinionWithClassifierKey` and `MinionWithTaskResult`: workers look every minion up, concurrently.
--
-- `Step` has one constructor for each thing that a worker does: it takes a uuid from the channel,
-- and it looks the minion up, which appends the minion to the result or drops it.
use gru.Prelude.{ℕ, suc, ◌<◌, Bool, true, false, String, List, [], ◌∷◌, ◌++◌, length, ◌≡◌}
use gru.Errors.{Result, ok, err, panic}
use gru.Minion.{Host, Reply, Directory}
use gru.Minion.Keys.{etcd_minion_space}
use gru.Client.{minion_classifier, minion_task_result, minion_ids}
pub mod Contract

abbrev pub max_goroutines : ℕ
max_goroutines = 4

-- Whether a lookup comes without an error, and the world after it.
unfoldable pub succeeds {ℓ} : {A : Type ℓ} → Result A → Bool
succeeds (ok _) = true
succeeds (err _) = false
succeeds panic = false

abbrev pub Probe : Type 0 → Type 0
Probe W = String → W → Bool × W

module _ {W : Type 0} (host : Host W) where
  unfoldable pub has_classifier : String → Probe W
  unfolding succeeds
  has_classifier key m w = let (r, w₁) = minion_classifier host m key w in (succeeds r, w₁)

  unfoldable pub has_task_result : String → Probe W
  unfolding succeeds
  has_task_result t m w = let (r, w₁) = minion_task_result host m t w in (succeeds r, w₁)

-- The channel, the uuids that the workers hold, and the shared slice.
pub record Searching (W : Type 0) : Type 0 where
  pub queue : List String
  pub held : List String
  pub result : List String
  pub world : W

unfoldable pub searching : {W : Type 0} → List String → W → Searching W
searching us w = record { queue = us; held = []; result = []; world = w }

-- The end of a worker's turn.
unfoldable pub appended : List String → String → Bool → List String
appended rs u true = rs ++ (u ∷ [])
appended rs u false = rs

-- `from` and `to` are the states before and after.
pub data Step {W : Type 0} (probe : Probe W) : Searching W → Searching W → Type 0 where
  take :
      (u : String) (us hs rs : List String) (w : W)
      → length hs < max_goroutines
      → Step probe
          (record { queue = u ∷ us; held = hs; result = rs; world = w })
          (record { queue = us; held = u ∷ hs; result = rs; world = w })
  look :
      (u : String) (us hs hs₁ rs : List String) (w w₁ : W) (b : Bool)
      → probe u w ≡ (b, w₁)
      → Step probe
          (record { queue = us; held = hs ++ (u ∷ hs₁); result = rs; world = w })
          (record { queue = us; held = hs ++ hs₁; result = appended rs u b; world = w₁ })

pub data Reach {W : Type 0} (probe : Probe W) : Searching W → Searching W → Type 0 where
  here : (s : Searching W) → Reach probe s s
  next : (s t u : Searching W) → Reach probe s t → Step probe t u → Reach probe s u

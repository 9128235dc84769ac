-- ===== src/Client/Search/Contract.antt =====
-- The concurrent search finds what one pass over the minions finds, each of them as often, and it
-- ends.
use gru.Prelude.{
  ℕ, suc, ◌+◌, ◌*◌, ◌<◌, Bool, String, List, [], ◌∷◌, ◌++◌, length, length-append, ◌≡◌, refl, arith,
  str_eq, if◌then◌else◌, ap,
}
use gru.Client.Search.{
  Probe, Searching, searching, appended, Step, Step.take, Step.look, Reach, Reach.here, Reach.next,
}

-- How often a minion stands in a list.
pub count : String → List String → ℕ
count x [] = 0
count x (u ∷ us) = let n = count x us in if str_eq x u then suc n else n

count-append : (x : String) (us vs : List String) → count x (us ++ vs) ≡ count x us + count x vs
unfolding count
count-append x [] vs = omega arith
count-append x (u ∷ us) vs = ground (arith, count-append x us vs)

module _ (answers : String → Bool) where
  -- The minions that are to be found, as often as they are listed.
  pub wanted : List String → List String
  wanted [] = []
  wanted (u ∷ us) = let vs = wanted us in if answers u then u ∷ vs else vs

  wanted-append :
      (x : String) (us vs : List String)
      → count x (wanted (us ++ vs)) ≡ count x (wanted us) + count x (wanted vs)
  unfolding wanted count
  wanted-append x [] vs = omega arith
  wanted-append x (u ∷ us) vs = ground (arith, wanted-append x us vs)

module _ {W : Type 0} (probe : Probe W) (answers : String → Bool) (Holds : W → Type 0) where
  -- What is found and what is still to be found make up what is wanted.
  Inv : List String → Searching W → Type 0
  Inv us s =
      Holds s.world
      × ((x : String)
          → count x s.result + count x (wanted answers s.queue) + count x (wanted answers s.held)
            ≡ count x (wanted answers us))

  -- Where a condition on the world holds, a lookup of a minion has one and the same answer, and the
  -- condition holds after it.
  unfoldable pub IsStable : Type 0
  IsStable =
      (u : String) (w : W) (b : Bool) (w₁ : W)
      → Holds w
      → probe u w ≡ (b, w₁)
      → (b ≡ answers u) × Holds w₁

  Step-Inv :
      IsStable → (us : List String) (s t : Searching W) → Step probe s t → Inv us s → Inv us t
  unfolding Inv wanted count appended IsStable
  Step-Inv stable us _ _ (take u qs hs rs w lt) (holds, inv) = (holds, λ x. ground (arith, inv x))
  Step-Inv stable us _ _ (look u qs hs hs₁ rs w w₁ b e) (holds, inv) =
      let (same, holds₁) = stable u w b w₁ holds e in
      (
        holds₁,
        λ x. ground (
          arith,
          inv x,
          same,
          wanted-append answers x hs hs₁,
          wanted-append answers x hs (u ∷ hs₁),
          count-append x rs (u ∷ []),
        ),
      )

  Reach-Inv :
      IsStable → (us : List String) (s t : Searching W) → Reach probe s t → Inv us s → Inv us t
  Reach-Inv stable us _ _ (here s) inv = inv
  Reach-Inv stable us _ _ (next s t u r st) inv =
      Step-Inv stable us t u st (Reach-Inv stable us s t r inv)

  -- Where the lookups have stable answers as long as a condition holds, and it holds at the start:
  -- the workers end, in whatever order they took their turns, with every minion that answers, as
  -- often as it is listed, and with no other.
  pub search-count :
      IsStable
      → (us : List String) (w : W) (s : Searching W) → Holds w
      → Reach probe (searching us w) s
      → s.queue ≡ []
      → s.held ≡ []
      → (x : String) → count x s.result ≡ count x (wanted answers us)
  unfolding Inv searching count wanted
  search-count stable us w s holds r no_queue no_held x =
      let (_, all) = Reach-Inv stable us (searching us w) s r (holds, λ y. ground arith) in
      ground (
        arith,
        all x,
        ap (λ q. count x (wanted answers q)) no_queue,
        ap (λ q. count x (wanted answers q)) no_held,
      )

-- Two turns for each minion on the channel, and one for each that a worker holds.
unfoldable pub turns_left : {W : Type 0} → Searching W → ℕ
turns_left s = 2 * length s.queue + length s.held

-- Each turn of a worker leaves fewer turns.
pub Step-turns_left :
    {W : Type 0} {probe : Probe W} (s t : Searching W)
    → Step probe s t
    → turns_left t < turns_left s
unfolding turns_left
Step-turns_left _ _ (take u qs hs rs w lt) = omega arith
Step-turns_left _ _ (look u qs hs hs₁ rs w w₁ b e) =
    omega (arith, length-append hs hs₁, length-append hs (u ∷ hs₁))

-- While a minion is on the channel or with a worker, there is a next turn.
pub next_turn :
    {W : Type 0} (probe : Probe W) (qs hs rs : List String) (w : W)
    → let s : Searching W = record { queue = qs; held = hs; result = rs; world = w } in
      0 < turns_left s → (t : Searching W) × Step probe s t
unfolding turns_left
next_turn probe qs (u ∷ hs) rs w h = (_, look u qs [] hs rs w _ _ refl)
next_turn probe (u ∷ qs) [] rs w h = (_, take u qs [] rs w (omega arith))
next_turn probe [] [] rs w h = absurd (omega (arith, h))

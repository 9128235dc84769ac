-- ===== src/Command/Main/Used.antt =====
-- The parts of commands that do not exit with the code 64, and those that exit with it at once.
use gru.Prelude.{ℕ, Bool, true, false, List, [], ◌∷◌, ◌++◌, ◌≡◌, ◌≢◌, refl, arith, ◌⊎◌, inl, inr}
use gru.Errors.{Error, Result, ok, err, panic}
use gru.Command.{
  Exit, done, exits, crashed, Act, after, ◌>>=◌, give, settle, try, settle_missing, try_missing,
  for_each,
}

unfoldable pub code_of : {W A : Type 0} → Exit A × W → ℕ
code_of (done a, w) = 0
code_of (exits e code, w) = code
code_of (crashed, w) = 0

-- A part of a command that does not exit with the code 64.
unfoldable pub IsUsed : {W A : Type 0} → Act W A → Type 0
IsUsed {W} a = (w : W) → code_of (a w) ≢ 64

pub give-IsUsed : (W : Type 0) {A : Type 0} (a : A) → IsUsed {W = W} (give a)
unfolding give IsUsed code_of
give-IsUsed W a w h = omega (arith, h)

List-cases : {A : Type 0} (xs : List A) → (xs ≡ []) ⊎ ((x : A) × (ys : List A) × (xs ≡ x ∷ ys))
List-cases [] = inl refl
List-cases (x ∷ xs) = inr (x, xs, refl)

module _ {W : Type 0} where
  module _ {A : Type 0} where
    pub settle-code : (r : Result A) (w : W) → code_of (settle r, w) ≢ 64
    unfolding settle code_of
    settle-code (ok a) w h = omega (arith, h)
    settle-code (err e) w h = omega (arith, h)
    settle-code panic w h = omega (arith, h)

    pub try-IsUsed : (f : W → Result A × W) → IsUsed (try f)
    unfolding try IsUsed
    try-IsUsed f w = settle-code (f w).0 (f w).1

    missing-code : (r : Result (List A)) (w : W) → code_of (settle_missing r, w) ≢ 64
    unfolding settle_missing code_of
    missing-code (ok a) w h = omega (arith, h)
    missing-code (err e) w h = ground (arith, h)
    missing-code panic w h = omega (arith, h)

    pub try_missing-IsUsed : (f : W → Result (List A) × W) → IsUsed (try_missing f)
    unfolding try_missing IsUsed
    try_missing-IsUsed f w = missing-code (f w).0 (f w).1

  after-code :
      {A B : Type 0} (f : A → Act W B) (p : Exit A × W)
      → code_of p ≢ 64
      → ((a : A) → IsUsed (f a))
      → code_of (after f p) ≢ 64
  unfolding code_of IsUsed
  after-code f (done a, w) head rest = rest a w
  after-code f (exits e code, w) head rest = head
  after-code f (crashed, w) head rest = head

  pub bind-IsUsed :
      {A B : Type 0} (a : Act W A) (f : A → Act W B)
      → IsUsed a
      → ((x : A) → IsUsed (f x))
      → IsUsed (a >>= f)
  unfolding IsUsed ◌>>=◌
  bind-IsUsed a f head rest w = after-code f (a w) (head w) rest

  pub for_each-IsUsed :
      {A B : Type 0} (f : A → Act W (List B)) (xs : List A)
      → ((x : A) → IsUsed (f x))
      → IsUsed (for_each f xs)
  unfolding for_each
  for_each-IsUsed f [] used = give-IsUsed W []
  for_each-IsUsed f (x ∷ xs) used = bind-IsUsed (f x) _ (used x) (λ ys.
      bind-IsUsed (for_each f xs) _ (for_each-IsUsed f xs used)
        (λ rest. give-IsUsed W (ys ++ rest)))

  -- The first part of a command, where the test says whether it exits.
  unfoldable pub IsArg : {A : Type 0} → Bool → Act W A → Type 0
  IsArg true a = (e : Error) × ((w : W) → a w ≡ (exits e 64, w))
  IsArg false a = IsUsed a

  -- How a command ends: at once with the code 64, or not with that code.
  unfoldable pub IsUsage : {A : Type 0} → Bool → Exit A × W → W → Type 0
  IsUsage true p w = (e : Error) × (p ≡ (exits e 64, w))
  IsUsage false p w = code_of p ≢ 64

  pub IsArg-bind :
      {A B : Type 0} (b : Bool) (a : Act W A) (f : A → Act W B)
      → IsArg b a
      → ((x : A) → IsUsed (f x))
      → IsArg b (a >>= f)
  unfolding IsArg ◌>>=◌
  IsArg-bind true a f (e, at_once) rest = (e, λ w. rw (at_once w) refl)
  IsArg-bind false a f used rest = bind-IsUsed a f used rest

  pub IsUsage-of : {A : Type 0} (b : Bool) (a : Act W A) (w : W) → IsArg b a → IsUsage b (a w) w
  unfolding IsUsage IsArg IsUsed
  IsUsage-of true a w (e, at_once) = (e, at_once w)
  IsUsage-of false a w used = used w

  pub IsUsage-bind :
      {A B : Type 0} (b : Bool) (a : Act W A) (f : A → Act W B) (w : W)
      → IsUsage b (a w) w
      → ((x : A) → IsUsed (f x))
      → IsUsage b ((a >>= f) w) w
  unfolding IsUsage ◌>>=◌
  IsUsage-bind true a f w (e, at_once) rest = (e, rw at_once refl)
  IsUsage-bind false a f w used rest = after-code f (a w) used rest

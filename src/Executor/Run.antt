-- ===== src/Executor/Run.antt =====
-- Asynchronous code that quotes prices as it goes, of wallet-fedimint/src/executor.rs: a function on
-- the state `W` of what it quotes from, which may answer the same question differently each time. An
-- error ends the run, as `?` does.
use fedimint_wallets.Prelude.{◌≡◌, refl, arith}
use fedimint_wallets.Journal.{ExecError}

pub data Outcome (A : Type 0) : Type 0 where
  value : A → Outcome A
  fault : ExecError → Outcome A
  out_of_fuel : Outcome A

abbrev pub Run : Type 0 → Type 0 → Type 0
Run W A = W → Outcome A × W

-- What a computation in progress leaves to the rest.
abbrev pub resume : {W A B : Type 0} → Outcome A × W → (A → Run W B) → Outcome B × W
resume (value a, w) f = f a w
resume (fault e, w) f = (fault e, w)
resume (out_of_fuel, w) f = (out_of_fuel, w)

infixl 5 ◌>>=◌
abbrev pub ◌>>=◌ : {W A B : Type 0} → Run W A → (A → Run W B) → Run W B
◌>>=◌ m f w = resume (m w) f

infixl 5 ◌>>◌
abbrev pub ◌>>◌ : {W A B : Type 0} → Run W A → Run W B → Run W B
◌>>◌ m rest = m >>= λ _. rest

abbrev pub pure : {W A : Type 0} → A → Run W A
pure a w = (value a, w)

abbrev pub raise : {W A : Type 0} → ExecError → Run W A
raise e w = (fault e, w)

abbrev pub starve : {W A : Type 0} → Run W A
starve w = (out_of_fuel, w)

-- The run ends, and what it returns has the property; an error promises nothing.
abbrev pub Returns : {W A : Type 0} → (A → W → Type 0) → Outcome A × W → Type 0
Returns P (value a, w) = P a w
Returns P (fault e, w) = Unit
Returns P (out_of_fuel, w) = ⊥

module _ {W A : Type 0} where
  -- `m` answers `a` in some state, and leaves the state `w`.
  abbrev pub Answers : Run W A → A → W → Type 0
  Answers m a w' = (w : W) × (m w ≡ (value a, w'))

  -- The run ends in every state.
  abbrev pub IsTotal : Run W A → Type 0
  IsTotal m = (w : W) → Returns (λ _ _. Unit {0}) (m w)

  Returns-same :
      (m : Run W A) (w : W) (r : Outcome A × W)
      → m w ≡ r
      → Returns (λ _ _. Unit {0}) r
      → Returns (λ a w'. Answers m a w') r
  Returns-same m w (value a, w') e t = (w, e)
  Returns-same m w (fault x, w') e t = tt
  Returns-same m w (out_of_fuel, w') e t = t

  pub Returns-Answers : (m : Run W A) → IsTotal m → (w : W) → Returns (λ a w'. Answers m a w') (m w)
  Returns-Answers m total w = Returns-same m w (m w) (refl) (total w)

  pub Returns-weaken :
      {P Q : A → W → Type 0} (r : Outcome A × W)
      → ((a : A) (w : W) → P a w → Q a w)
      → Returns P r
      → Returns Q r
  Returns-weaken (value a, w) f p = f a w p
  Returns-weaken (fault x, w) f p = tt
  Returns-weaken (out_of_fuel, w) f p = p

  pub Returns-bind :
      {B : Type 0} (P : A → W → Type 0) (Q : B → W → Type 0) (r : Outcome A × W) (f : A → Run W B)
      → Returns P r
      → ((a : A) (w : W) → P a w → Returns Q (f a w))
      → Returns Q (resume r f)
  Returns-bind P Q (value a, w) f p k = k a w p
  Returns-bind P Q (fault x, w) f p k = tt
  Returns-bind P Q (out_of_fuel, w) f p k = p

-- An answer of two computations in turn is an answer of each.
module _ {W A B : Type 0} where
  resume-value :
      (r : Outcome A × W) (f : A → Run W B) (b : B) (w' : W)
      → resume r f ≡ (value b, w')
      → (a : A) × (u : W) × (r ≡ (value a, u)) × (f a u ≡ (value b, w'))
  resume-value (value a, u) f b w' e = (a, u, refl, e)
  resume-value (fault x, u) f b w' e = ground arith
  resume-value (out_of_fuel, u) f b w' e = ground arith

  pub Answers-bind :
      (m : Run W A) (f : A → Run W B) (b : B) (w' : W)
      → Answers (m >>= f) b w'
      → (a : A) × (u : W) × Answers m a u × (f a u ≡ (value b, w'))
  Answers-bind m f b w' (w, e) =
      let (a, u, first, second) = resume-value (m w) f b w' e in (a, u, (w, first), second)

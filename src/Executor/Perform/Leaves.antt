-- ===== src/Executor/Perform/Leaves.antt =====
-- How the calls of the loop of a move leave its trail.
use fedimint_wallets.Prelude.{Bool, true, false, Option, some, none, List, ◌∷◌, ◌≡◌, refl}
use fedimint_wallets.Types.Record.{MoveRecord}
use fedimint_wallets.Intent.{Intent}
use fedimint_wallets.Journal.{ExecError}
use fedimint_wallets.Executor.Run.{
  Outcome, value, fault, out_of_fuel, Run, resume, Returns, IsTotal,
}
use fedimint_wallets.Executor.Perform.Verdicts.{Verdict, accepted, rejected}
use fedimint_wallets.Executor.Perform.Calls.{
  Client, Event, stored, Course, beside, ask, require, respect, keep, put_move_for_intent,
}
use fedimint_wallets.Executor.Perform.Total.{IsTotalClient}

-- The run ends. Its answer fits the trail, or it fails and leaves a trail that is right.
abbrev pub Leaves :
    {W A : Type 0}
    → (List Event → Type 0)
    → (A → List Event → Type 0)
    → Outcome A × Course W
    → Type 0
Leaves E Q (value a, (t, w)) = Q a t
Leaves E Q (fault e, (t, w)) = E t
Leaves E Q (out_of_fuel, (t, w)) = ⊥

module _ {W : Type 0} (E : List Event → Type 0) where
  pub Leaves-bind :
      {A B : Type 0} (P : A → List Event → Type 0) (Q : B → List Event → Type 0)
      (r : Outcome A × Course W) (f : A → Run (Course W) B)
      → Leaves E P r
      → ((a : A) (t : List Event) (w : W) → P a t → Leaves E Q (f a (t, w)))
      → Leaves E Q (resume r f)
  Leaves-bind P Q (value a, (t, w)) f p next = next a t w p
  Leaves-bind P Q (fault e, (t, w)) f p next = p
  Leaves-bind P Q (out_of_fuel, (t, w)) f p next = p

  module _ {B : Type 0} (Q : B → List Event → Type 0) (t : List Event) (right : E t) where
    -- A call of the SDK.
    pub Leaves-call :
        {A : Type 0} (P : A → W → Type 0) (r : Outcome A × W) (f : A → Run (Course W) B)
        → Returns P r
        → ((a : A) (w : W) → P a w → Leaves E Q (f a (t, w)))
        → Leaves E Q (resume (beside t r) f)
    Leaves-call P (value a, w) f p next = next a w p
    Leaves-call P (fault e, w) f p next = right
    Leaves-call P (out_of_fuel, w) f p next = p

    pub Leaves-ask :
        {A : Type 0} (m : Run W A) (w : W) (f : A → Run (Course W) B)
        → IsTotal m
        → ((a : A) (u : W) → Leaves E Q (f a (t, u)))
        → Leaves E Q (resume (ask m (t, w)) f)
    Leaves-ask m w f total next =
        Leaves-call (λ _ _. Unit {0}) (m w) f (total w) (λ a u ended. next a u)

    pub Leaves-respect :
        (v : Verdict) (w : W) (f : Unit {0} → Run (Course W) B)
        → (v ≡ accepted → Leaves E Q (f tt (t, w)))
        → Leaves E Q (resume (respect v (t, w)) f)
    Leaves-respect accepted w f next = next refl
    Leaves-respect (rejected e) w f next = right

    pub Leaves-require :
        {A : Type 0} (o : Option A) (e : ExecError) (w : W) (f : A → Run (Course W) B)
        → ((a : A) → o ≡ some a → Leaves E Q (f a (t, w)))
        → Leaves E Q (resume (require o e (t, w)) f)
    Leaves-require none e w f next = right
    Leaves-require (some a) e w f next = next a refl

    put_cases :
        (rec : MoveRecord) (r : Outcome Bool × W) (f : Unit {0} → Run (Course W) B)
        → Returns (λ _ _. Unit {0}) r
        → ((w : W) → Leaves E Q (f tt (stored rec ∷ t, w)))
        → Leaves E Q (resume (resume (beside t r) (keep rec)) f)
    put_cases rec (value true, w) f ended next = next w
    put_cases rec (value false, w) f ended next = right
    put_cases rec (fault e, w) f ended next = right
    put_cases rec (out_of_fuel, w) f ended next = ended

    -- A write of the record, which the journal may refuse.
    pub Leaves-put :
        (client : Client W) (total : IsTotalClient client) (intent : Intent) (rec : MoveRecord)
        (w : W) (f : Unit {0} → Run (Course W) B)
        → ((u : W) → Leaves E Q (f tt (stored rec ∷ t, u)))
        → Leaves E Q (resume (put_move_for_intent client intent rec (t, w)) f)
    unfolding put_move_for_intent
    Leaves-put client total intent rec w f next =
        put_cases rec (client.put_move_if_attempt intent rec w) f (total.put_move intent rec w) next

-- ===== src/Prelude/Sets.antt =====
-- Ordered sets: a list that `insert` keeps in the order of a comparison, as a `BTreeSet` iterates.
use Prim.Native.Nat.{ℕ, compare, Ordering}
use mathlib.Core.Path.{◌≡◌, refl}
use mathlib.Core.Bool.{Bool, true, ◌||◌}
use mathlib.Core.List.{List, [], ◌∷◌}
use native.Mathlib.Omega.{arith}
use fedimint_wallets.Prelude.Lists.{any, filter}

-- The first difference decides.
abbrev pub then_cmp : Ordering → Ordering → Ordering
then_cmp Ordering.lt d = Ordering.lt
then_cmp Ordering.gt d = Ordering.gt
then_cmp Ordering.eq d = d

unfoldable pub text_cmp : List ℕ → List ℕ → Ordering
text_cmp [] [] = Ordering.eq
text_cmp [] (y ∷ ys) = Ordering.lt
text_cmp (x ∷ xs) [] = Ordering.gt
text_cmp (x ∷ xs) (y ∷ ys) = then_cmp (compare x y) (text_cmp xs ys)

pub text_cmp_sound : (a b : List ℕ) → text_cmp a b ≡ Ordering.eq → a ≡ b
unfolding text_cmp
text_cmp_sound [] [] h = refl
text_cmp_sound [] (y ∷ ys) h = ground arith
text_cmp_sound (x ∷ xs) [] h = ground arith
text_cmp_sound (x ∷ xs) (y ∷ ys) h = ground (arith, text_cmp_sound xs ys)

module _ {A : Type 0} (cmp : A → A → Ordering) where
  unfoldable pub insert : A → List A → List A
  insert x [] = x ∷ []
  insert x (y ∷ ys) =
      let rest = y ∷ insert x ys in
      elim (cmp x y) [ Ordering.lt ↦ x ∷ y ∷ ys | Ordering.eq ↦ y ∷ ys | Ordering.gt ↦ rest ]

  -- `extend`
  unfoldable pub union : List A → List A → List A
  union s [] = s
  union s (x ∷ xs) = union (insert x s) xs

module _ {A : Type 0} (cmp : A → A → Ordering)
    (sound : (x y : A) → cmp x y ≡ Ordering.eq → x ≡ y) where
  -- What an inserted set holds: the new element, and what it held before.
  pub any-insert : (p : A → Bool) (x : A) (s : List A) → any p (insert cmp x s) ≡ (p x || any p s)
  unfolding insert any
  any-insert p x [] = refl
  any-insert p x (y ∷ ys) = ground (arith, any-insert p x ys, sound x y)

  pub any-union : (p : A → Bool) (s t : List A) → any p (union cmp s t) ≡ (any p s || any p t)
  unfolding union any
  any-union p s [] = ground arith
  any-union p s (x ∷ xs) = ground (arith, any-union p (insert cmp x s) xs, any-insert p x s)

-- A removed element is the only loss.
pub any-filter :
    {A : Type 0} (p q : A → Bool) (s : List A) → any p (filter q s) ≡ true → any p s ≡ true
unfolding any filter
any-filter p q [] h = h
any-filter p q (x ∷ xs) h = ground (arith, any-filter p q xs)

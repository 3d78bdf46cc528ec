-- ===== src/Journal/Lookup.antt =====
-- Finding what was put.
use Prim.Native.Nat.{Ordering}
use fedimint_wallets.Prelude.{
  ℕ, ◌≡◌, refl, some, List, [], ◌∷◌, find, text_eq, text_eq_sound, text_eq_refl, if◌then◌else◌,
  arith,
}
use fedimint_wallets.Prelude.Sets.{text_cmp, text_cmp_sound}
use fedimint_wallets.Types.Action.{IdempotencyKey}
use fedimint_wallets.Intent.{Intent}
use fedimint_wallets.Journal.{MemStore, lookup, put}

text_cmp_refl : (a : List ℕ) → text_cmp a a ≡ Ordering.eq
unfolding text_cmp
text_cmp_refl [] = refl
text_cmp_refl (x ∷ xs) = ground (arith, text_cmp_refl xs)

-- An intent is found under its own key, and every other key finds what it found before.
pub lookup-put :
    (i : Intent) (key : IdempotencyKey) (store : MemStore)
    → lookup key (put i store)
      ≡ (if text_eq i.idempotency_key key then some i else lookup key store)
unfolding lookup put find
lookup-put i key [] = refl
lookup-put i key (j ∷ js) = ground (
  arith,
  lookup-put i key js,
  text_cmp_sound i.idempotency_key j.idempotency_key,
  text_cmp_refl key,
  text_eq_sound i.idempotency_key key,
  text_eq_sound j.idempotency_key key,
)

pub lookup-put_self :
    (i : Intent) (store : MemStore) → lookup i.idempotency_key (put i store) ≡ some i
lookup-put_self i store = rw (lookup-put, text_eq_refl i.idempotency_key)

pub lookup-key :
    (key : IdempotencyKey) (store : MemStore) (i : Intent)
    → lookup key store ≡ some i
    → i.idempotency_key ≡ key
unfolding lookup find
lookup-key key [] i e = cc
lookup-key key (j ∷ js) i e =
    ground (arith, lookup-key key js i, text_eq_sound j.idempotency_key key)

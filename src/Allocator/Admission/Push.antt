-- ===== src/Allocator/Admission/Push.antt =====
-- What a list of decisions keeps when a decision is pushed into it (`push_decision`).
use fedimint_wallets.Prelude.{
  ℕ, ◌≡◌, refl, sym, ap, ◌∙◌, false, ◌||◌, List, [], ◌∷◌, ◌++◌, arith, any, All, All-append,
  text_eq, text_eq_sound, Bool-cases, inl, inr,
}
use fedimint_wallets.Types.Action.{AllocatorDecision, IdempotencyKey}
use fedimint_wallets.Allocator.Admission.{same_key, replaces, refill, push_decision}

refill-All :
    (P : AllocatorDecision → Type 0) (d : AllocatorDecision) (out : List AllocatorDecision)
    → P d
    → All P out
    → All P (refill d out)
unfolding refill
refill-All P d [] h a = a
refill-All P d (e ∷ es) h a = elim (Bool-cases (same_key d e)) [
  | inl t ↦ elim (Bool-cases (replaces d e)) [ inl r ↦ rw (t, r) (h, a.1) | inr n ↦ rw (t, n) a ]
  | inr f ↦ rw f (a.0, refill-All P d es h a.1)
]

pub push_decision-All :
    (P : AllocatorDecision → Type 0) (out : List AllocatorDecision) (d : AllocatorDecision)
    → P d
    → All P out
    → All P (push_decision out d).0
unfolding push_decision
push_decision-All P out d h a = elim (Bool-cases (any (same_key d) out)) [
  | inl t ↦ rw t (refill-All P d out h a)
  | inr f ↦ rw f (All-append P out (d ∷ []) a (h, tt))
]

-- No two decisions have one key.
abbrev pub KeysDistinct : List AllocatorDecision → Type 0
KeysDistinct [] = Unit
KeysDistinct (d ∷ ds) = (any (same_key d) ds ≡ false) × KeysDistinct ds

text_eq-sym : (a b : List ℕ) → text_eq a b ≡ text_eq b a
text_eq-sym a b = elim (Bool-cases (text_eq a b)) [
  | inl t ↦ rw (text_eq_sound a b t)
  | inr f ↦ elim (Bool-cases (text_eq b a)) [ inl t ↦ rw (text_eq_sound b a t) | inr g ↦ rw (f, g) ]
]

same_key-append :
    (e d : AllocatorDecision) (es : List AllocatorDecision)
    → any (same_key e) (es ++ (d ∷ [])) ≡ (any (same_key e) es || same_key d e)
unfolding any
same_key-append e d [] = ground (arith, text_eq-sym d.idempotency_key e.idempotency_key)
same_key-append e d (x ∷ es) = ground (arith, same_key-append e d es)

append-KeysDistinct :
    (out : List AllocatorDecision) (d : AllocatorDecision)
    → any (same_key d) out ≡ false
    → KeysDistinct out
    → KeysDistinct (out ++ (d ∷ []))
unfolding any
append-KeysDistinct [] d h k = (refl, tt)
append-KeysDistinct (e ∷ es) d h k =
    (ground (arith, same_key-append e d es), append-KeysDistinct es d (ground arith) k.1)

-- A refill changes no key.
same_key-refill :
    (x d : AllocatorDecision) (es : List AllocatorDecision)
    → any (same_key x) (refill d es) ≡ any (same_key x) es
unfolding any refill
same_key-refill x d [] = refl
same_key-refill x d (e ∷ es) =
    ground (arith, same_key-refill x d es, text_eq_sound e.idempotency_key d.idempotency_key)

refill-KeysDistinct :
    (d : AllocatorDecision) (out : List AllocatorDecision)
    → KeysDistinct out
    → KeysDistinct (refill d out)
unfolding refill
refill-KeysDistinct d [] k = k
refill-KeysDistinct d (e ∷ es) k = elim (Bool-cases (same_key d e)) [
  | inl t ↦ elim (Bool-cases (replaces d e)) [
    | inl r ↦
        rw (t, r)
          (
            ap
                  (λ (x : IdempotencyKey).
                    any (λ (y : AllocatorDecision). text_eq y.idempotency_key x) es)
                  (sym (text_eq_sound e.idempotency_key d.idempotency_key t))
                ∙ k.0,
            k.1,
          )
    | inr n ↦ rw (t, n) k
  ]
  | inr f ↦ rw f (rw (same_key-refill e d es) k.0, refill-KeysDistinct d es k.1)
]

pub push_decision-KeysDistinct :
    (out : List AllocatorDecision) (d : AllocatorDecision)
    → KeysDistinct out
    → KeysDistinct (push_decision out d).0
unfolding push_decision
push_decision-KeysDistinct out d k = elim (Bool-cases (any (same_key d) out)) [
  | inl t ↦ rw t (refill-KeysDistinct d out k)
  | inr f ↦ rw f (append-KeysDistinct out d f k)
]
